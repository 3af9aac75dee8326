-- ===== src/Orm/Meta/Plain.antt =====
-- The columns and the table of a model that buildMeta accepts hold no placeholder.
use Prim.Native.Char.{Char, code}
use framework_kyrux.Prelude.{
  ℕ, ◌+◌, ◌≡◌, ◌≢◌, refl, sym, subst, ◌⊎◌, ap, ◌∙◌, inl, inr, String, Bool, true, List, [], ◌∷◌,
  none, arith, ◌==◌, Bool-cases, All, Result, ok, err, dec_text,
}
use framework_kyrux.Prelude.Dict.{Dict, lookup, insert, lookup-insert}
use framework_kyrux.Orm.Marks.{marks, count_marks}
use framework_kyrux.Orm.Ident.{valid_ident, marks-valid_ident}
use framework_kyrux.Orm.Model.{Field, ModelMeta}
use framework_kyrux.Orm.Query.{pk_column}
use framework_kyrux.Orm.Query.Balance.{IsPlainMeta}
use framework_kyrux.Orm.Statements.Update.{HasPlainColumns}
use framework_kyrux.Orm.Meta.{
  StructField, MetaError, check_field, build_field, build_fields, build_meta, index_columns,
  first_pk, plural_snake,
}
use framework_kyrux.Orm.Meta.Names.{marks-plural_snake}

check_field-valid : (f g : Field) → check_field f ≡ ok g → valid_ident g.column ≡ true
unfolding check_field
check_field-valid f g h = ground arith

index_columns-plain :
    (fs : List Field) (cols : Dict Field)
    → All (λ f. marks f.column ≡ 0) fs
    → ((c : String) → lookup c cols ≢ none → marks c ≡ 0)
    → (c : String) → lookup c (index_columns fs cols) ≢ none
    → marks c ≡ 0
unfolding index_columns
index_columns-plain [] cols h plain c found = plain c found
index_columns-plain (f ∷ fs) cols h plain c found =
    index_columns-plain fs (insert f.column f cols) h.1
      (λ k at. elim (dec_text f.column k) [
        | yes e ↦ ap marks (sym e) ∙ h.0
        | no n ↦ plain k (ground (arith, lookup-insert f.column k f cols))
      ])
      c found

first_pk-plain :
    (fs : List Field) → All (λ f. marks f.column ≡ 0) fs → marks (pk_column (first_pk fs)) ≡ 0
unfolding first_pk pk_column count_marks
first_pk-plain [] h = refl
first_pk-plain (f ∷ fs) h = elim (Bool-cases f.is_pk) [
  | inl e ↦ rw e h.0
  | inr e ↦ rw e (first_pk-plain fs h.1)
]

module _ (is_upper is_lower : Char → Bool) (to_lower : Char → Char) where
  -- The fields of a longer struct, where buildMeta accepts it.
  build_fields_cons :
      (i : ℕ) (sf : StructField) (sfs : List StructField) (fs : List Field)
      → build_fields is_upper is_lower to_lower i (sf ∷ sfs) ≡ ok fs
      → (build_fields is_upper is_lower to_lower (i + 1) sfs ≡ ok fs)
        ⊎ ((f : Field) × (gs : List Field) × (fs ≡ f ∷ gs)
            × (build_field is_upper is_lower to_lower i sf ≡ ok f)
            × (build_fields is_upper is_lower to_lower (i + 1) sfs ≡ ok gs))
  unfolding build_fields
  build_fields_cons i sf sfs fs h =
      split (build_field is_upper is_lower to_lower i sf) refl
        (build_fields is_upper is_lower to_lower (i + 1) sfs) refl
    where
      split :
          (r : Result MetaError Field)
          → build_field is_upper is_lower to_lower i sf ≡ r
          → (rest : Result MetaError (List Field))
          → build_fields is_upper is_lower to_lower (i + 1) sfs ≡ rest
          → (build_fields is_upper is_lower to_lower (i + 1) sfs ≡ ok fs)
            ⊎ ((f : Field) × (gs : List Field) × (fs ≡ f ∷ gs)
                × (build_field is_upper is_lower to_lower i sf ≡ ok f)
                × (build_fields is_upper is_lower to_lower (i + 1) sfs ≡ ok gs))
      split (err e) k rest l = inl (ground arith)
      split (ok f) k (err e) l = inl (ground arith)
      split (ok f) k (ok gs) l = elim (Bool-cases sf.exported) [
        | inl x ↦ inr (f, gs, ground arith, k, l)
        | inr x ↦ inl (ground arith)
      ]

  build_fields-plain :
      (i : ℕ) (sfs : List StructField) (fs : List Field)
      → build_fields is_upper is_lower to_lower i sfs ≡ ok fs
      → All (λ f. marks f.column ≡ 0) fs
  unfolding build_fields build_field
  build_fields-plain i [] fs h =
      let none_built : [] ≡ fs = ground arith in
      subst (λ gs. All (λ f. marks f.column ≡ 0) gs) none_built tt
  build_fields-plain i (sf ∷ sfs) fs h = elim (build_fields_cons i sf sfs fs h) [
    | inl rest ↦ build_fields-plain (i + 1) sfs fs rest
    | inr (f, gs, same, built, rest) ↦
        subst (λ l. All (λ g. marks g.column ≡ 0) l) (sym same)
          (
            marks-valid_ident f.column (check_field-valid _ f built),
            build_fields-plain (i + 1) sfs gs rest,
          )
  ]

  -- A model that buildMeta accepts, of a type whose name holds no placeholder, has a table and
  -- columns that hold none, if lower case makes no placeholder of another character: what the
  -- theorems on the statements of a query ask of its model.
  pub build_meta_plain :
      (type_name : String) (sfs : List StructField) (meta : ModelMeta)
      → ((c : Char) → (code (to_lower c) == b'?') ≡ (code c == b'?'))
      → marks type_name ≡ 0
      → build_meta is_upper is_lower to_lower type_name sfs ≡ ok meta
      → IsPlainMeta meta × HasPlainColumns meta
  unfolding build_meta lookup
  build_meta_plain type_name sfs meta unmarked named h =
      split (build_fields is_upper is_lower to_lower 0 sfs) refl
    where
      split :
          (r : Result MetaError (List Field))
          → build_fields is_upper is_lower to_lower 0 sfs ≡ r
          → IsPlainMeta meta × HasPlainColumns meta
      split (err e) k = absurd (ground arith)
      split (ok fs) k =
          let plain = build_fields-plain 0 sfs fs k in
          let same : record {
            table = plural_snake is_upper is_lower to_lower type_name;
            fields = fs;
            pk_field = first_pk fs;
            col_to_field = index_columns fs [];
          }
              ≡ meta =
            ground arith in
          subst (λ m. IsPlainMeta m × HasPlainColumns m) same
            (
              record {
                table_plain =
                    marks-plural_snake is_upper is_lower to_lower unmarked type_name ∙ named;
                pk_plain = first_pk-plain fs plain;
              },
              record {
                indexed = index_columns-plain fs [] plain (λ c found. absurd (found refl));
                listed = plain;
              },
            )
