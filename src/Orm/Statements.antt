-- ===== src/Orm/Statements.antt =====
-- The statements that the executing methods send (core/orm/query.go: All, Each, First, Exists,
-- Count, aggregate, Update, Delete), or the error with which they refuse. The hash and the cipher
-- of core/security/crypton are parameters of Update: `none` is their error.
pub mod Safety
pub mod Update
pub mod Sealing
use Prim.Native.Nat.{Ordering}
use Prim.Native.String.{compare}
use framework_kyrux.Prelude.{
  String, Bool, true, false, List, [], ◌∷◌, ◌++◌, map, Option, none, some, if◌then◌else◌, not, ◌<>◌,
  join, Result, ok, err,
}
use framework_kyrux.Prelude.Dict.{Dict, lookup, keys}
use framework_kyrux.Orm.Ident.{valid_ident}
use framework_kyrux.Orm.Rewrite.{rewrite_placeholders}
use framework_kyrux.Orm.Model.{
  Field, Arg, text, OrmError, aggregate_ident, update_no_where, update_join, update_column,
  delete_no_where, delete_join, hash_failed, encrypt_failed,
}
use framework_kyrux.Orm.Query.{Query}
use framework_kyrux.Orm.Select.{qualified_table, where_text, from_text, build_select}
use package.text.Mathlib.Text.{starts_with}

pub record Statement {ℓ} (A : Type ℓ) : Type ℓ where
  pub sql : String
  pub args : List (Arg A)

abbrev pub is_empty {ℓ} : {A : Type ℓ} → List A → Bool
is_empty [] = true
is_empty (x ∷ xs) = false

-- A text is put where it belongs in sorted texts, which sort.Strings orders byte by byte.
insert_sorted : String → List String → List String
insert_sorted s [] = s ∷ []
insert_sorted s (t ∷ ts) = elim (compare s t) [
  | Ordering.gt ↦ t ∷ insert_sorted s ts
  | _ ↦ s ∷ t ∷ ts
]

unfoldable pub sort_texts : List String → List String
unfolding insert_sorted
sort_texts [] = []
sort_texts (s ∷ ss) = insert_sorted s (sort_texts ss)

-- The first key that is no column of the model.
unfoldable pub unknown_column : Dict Field → List String → Option String
unknown_column cols [] = none
unknown_column cols (k ∷ ks) = elim (lookup k cols) [
  | none ↦ some k
  | some _ ↦ unknown_column cols ks
]

abbrev pub set_clauses : List String → List String
set_clauses cols = map (λ c. c <> " = ?") cols

module _ {ℓ} {A : Type ℓ} where
  -- A query with a recorded error sends nothing.
  abbrev pub unless_err : Query A → Result OrmError (Statement A) → Result OrmError (Statement A)
  unless_err q r = elim q.err [ none ↦ r | some e ↦ err e ]

  abbrev pub rewritten : Query A → String → List (Arg A) → Statement A
  rewritten q sql args = record { sql = rewrite_placeholders q.driver sql; args = args }

  -- All and Each
  unfoldable pub all_statement : Query A → Result OrmError (Statement A)
  all_statement q =
      unless_err q (ok (record { sql = (build_select 0 q).0; args = (build_select 0 q).1 }))

  unfoldable pub first_statement : Query A → Result OrmError (Statement A)
  first_statement q =
      unless_err q (ok (record { sql = (build_select 1 q).0; args = (build_select 1 q).1 }))

  unfoldable pub exists_text : Query A → String
  exists_text q = "SELECT 1" <> (from_text q <> (where_text q.wheres <> " LIMIT 1"))

  unfoldable pub exists_statement : Query A → Result OrmError (Statement A)
  exists_statement q = unless_err q (ok (rewritten q (exists_text q) q.args))

  unfoldable pub count_text : Query A → String
  count_text q = "SELECT COUNT(*)" <> (from_text q <> where_text q.wheres)

  unfoldable pub count_statement : Query A → Result OrmError (Statement A)
  count_statement q = unless_err q (ok (rewritten q (count_text q) q.args))

  unfoldable pub aggregate_text : String → String → Query A → String
  aggregate_text fn col q =
      "SELECT " <> (fn <> ("(" <> (col <> (")" <> (from_text q <> where_text q.wheres)))))

  -- aggregate, for Sum, Avg, Min and Max
  unfoldable pub aggregate_statement : String → String → Query A → Result OrmError (Statement A)
  aggregate_statement fn col q = unless_err q (
      if valid_ident col
      then ok (rewritten q (aggregate_text fn col q) q.args)
      else err (aggregate_ident col))

  unfoldable pub delete_text : Query A → String
  delete_text q = "DELETE FROM " <> (qualified_table q.schema q.meta.table <> where_text q.wheres)

  unfoldable pub delete_statement : Query A → Result OrmError (Statement A)
  delete_statement q = unless_err q (
      if is_empty q.wheres
      then err delete_no_where
      else if not (is_empty q.joins)
      then err delete_join
      else ok (rewritten q (delete_text q) q.args))

  -- The autonow columns that `values` does not name.
  unfoldable pub now_clauses : Dict (Arg A) → List Field → List String
  now_clauses values [] = []
  now_clauses values (f ∷ fs) =
      let rest = now_clauses values fs in
      if f.is_auto_now
      then (elim (lookup f.column values) [
        | none ↦ (f.column <> " = CURRENT_TIMESTAMP") ∷ rest
        | some _ ↦ rest
      ])
      else rest

  unfoldable pub update_text : List String → Query A → String
  update_text clauses q =
      "UPDATE "
      <> (qualified_table q.schema q.meta.table
          <> (" SET " <> (join ", " clauses <> where_text q.wheres)))

module _ {ℓ} {A : Type ℓ} (hash encrypt : String → Option String) where
  or_fail : Option String → OrmError → Result OrmError (Arg A)
  or_fail none e = err e
  or_fail (some s) e = ok (text s)

  -- What is stored for a value: its hash, its cipher text, or itself.
  unfoldable pub stored : Field → Arg A → Result OrmError (Arg A)
  unfolding or_fail
  stored f (text s) =
      if f.is_hash
      then (if starts_with s "$argon2id$"
          then ok (text s)
          else or_fail (hash s) (hash_failed f.column))
      else if f.is_encrypt
      then or_fail (encrypt s) (encrypt_failed f.column)
      else ok (text s)
  stored f val = ok val

  pub stored_at : Option Field → Option (Arg A) → Result OrmError (List (Arg A))
  stored_at f none = ok []
  stored_at none (some val) = ok (val ∷ [])
  stored_at (some f) (some val) = elim (stored f val) [ ok v ↦ ok (v ∷ []) | err e ↦ err e ]

  -- The values of the columns, in the columns' order.
  unfoldable pub stored_all :
      Dict Field → Dict (Arg A) → List String → Result OrmError (List (Arg A))
  unfolding stored_at
  stored_all cols values [] = ok []
  stored_all cols values (k ∷ ks) =
      let rest = stored_all cols values ks in
      elim (stored_at (lookup k cols) (lookup k values)) [
        | err e ↦ err e
        | ok v ↦ elim rest [ err e ↦ err e | ok vs ↦ ok (v ++ vs) ]
      ]

  unfoldable pub update_known : List String → Dict (Arg A) → Query A → Result OrmError (Statement A)
  update_known cols values q = elim (stored_all q.meta.col_to_field values cols) [
    | err e ↦ err e
    | ok vs ↦ ok (
        rewritten q (update_text (set_clauses cols ++ now_clauses values q.meta.fields) q)
          (vs ++ q.args))
  ]

  unfoldable pub update_statement : Dict (Arg A) → Query A → Result OrmError (Statement A)
  update_statement values q = unless_err q (
      if is_empty q.wheres
      then err update_no_where
      else if not (is_empty q.joins)
      then err update_join
      else (elim (unknown_column q.meta.col_to_field (keys values)) [
        | some c ↦ err (update_column c)
        | none ↦ update_known (sort_texts (keys values)) values q
      ]))
