-- ===== src/Orm/Last.antt =====
-- The last row in an order (core/orm/query.go: Last, reverseOrder).
pub mod Balance
use Prim.Native.Char.{code}
use framework_kyrux.Prelude.{
  ℕ, String, Bool, true, false, List, [], ◌∷◌, Option, none, some, ◌==◌, ◌&&◌, if◌then◌else◌, ◌<>◌,
  Result,
}
use framework_kyrux.Prelude.Texts.{trim, to_upper_ascii}
use framework_kyrux.Orm.Model.{ModelMeta, OrmError}
use framework_kyrux.Orm.Query.{Query}
use framework_kyrux.Orm.Statements.{Statement, first_statement}

-- strings.ToUpper on a character of an identifier, of which OrderBy accepts no other: a letter, or
-- U+017F, which the pattern also takes for an s.
unfoldable pub upper_letter : ℕ → ℕ
upper_letter c = if c == 0x17f then b'S' else to_upper_ascii c

unfoldable pub same_upper : String → String → Bool
unfolding upper_letter
same_upper String.[] String.[] = true
same_upper (String.◌∷◌ d ds) (String.◌∷◌ c cs) =
    let rest = same_upper ds cs in code d == upper_letter (code c) && rest
same_upper _ _ = false

-- The text before a suffix, given in capitals, if it is there.
unfoldable pub before_suffix : String → String → Option String
unfolding same_upper
before_suffix suffix String.[] = none
before_suffix suffix (String.◌∷◌ c s) =
    let rest = before_suffix suffix s in
    if same_upper suffix (String.◌∷◌ c s)
    then some ""
    else (elim rest [ none ↦ none | some t ↦ some (String.◌∷◌ c t) ])

unfoldable pub reverse_term : String → String
unfolding before_suffix
reverse_term term = elim (before_suffix " DESC" (trim term)) [
  | some t ↦ trim t <> " ASC"
  | none ↦ elim (before_suffix " ASC" (trim term)) [
    | some t ↦ trim t <> " DESC"
    | none ↦ trim term <> " DESC"
  ]
]

unfoldable pub reverse_terms : List String → List String
unfolding reverse_term
reverse_terms [] = []
reverse_terms (t ∷ ts) = reverse_term t ∷ reverse_terms ts

unfoldable pub reverse_order : List String → ModelMeta → List String
unfolding reverse_terms
reverse_order [] meta = elim meta.pk_field [ none ↦ [] | some f ↦ (f.column <> " DESC") ∷ [] ]
reverse_order (t ∷ ts) meta = reverse_terms (t ∷ ts)

module _ {ℓ} {A : Type ℓ} where
  unfoldable pub reversed : Query A → Query A
  unfolding reverse_order
  reversed q = record q { order_by = reverse_order q.order_by q.meta }

  -- Last
  unfoldable pub last_statement : Query A → Result OrmError (Statement A)
  unfolding reversed
  last_statement q = first_statement (reversed q)
