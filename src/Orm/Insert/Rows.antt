-- ===== src/Orm/Insert/Rows.antt =====
-- The placeholders and the arguments of one row of an INSERT.
use framework_kyrux.Prelude.{
  ℕ, ◌≡◌, ◌≤◌, refl, sym, ◌∙◌, String, Bool, true, false, List, [], ◌∷◌, ◌++◌, Option, none, some,
  arith, length, length-append, All, Result, ok, err, inl, inr, Bool-cases, if◌then◌else◌, subst,
  ◌<>◌, not, ◌&&◌, str_eq,
}
use framework_kyrux.Orm.Marks.{marks, count_marks, marks-append, marks-join, marks_list, marks-if}
use framework_kyrux.Orm.Rewrite.{is_pg}
use framework_kyrux.Orm.Model.{Field, ModelMeta, Arg, OrmError}
use framework_kyrux.Orm.Query.{pk_column}
use framework_kyrux.Orm.Query.Balance.{IsPlainMeta}
use framework_kyrux.Orm.Select.Balance.{marks-qualified_table}
use framework_kyrux.Orm.Statements.{stored}
use framework_kyrux.Orm.Insert.{
  Cell, RowValues, non_pk_cols, is_zero_value, arg_of, with_nano_id, set_field, cell_values,
  row_values, group, returning, insert_text,
}

-- A field whose column and default hold no placeholder.
pub record IsPlainField (f : Field) : Type 0 where
  pub column_plain : marks f.column ≡ 0
  pub default_plain : marks f.default_sql ≡ 0

marks-non_pk_cols : (fs : List Field) → All IsPlainField fs → marks_list (non_pk_cols fs) ≡ 0
unfolding non_pk_cols
marks-non_pk_cols [] h = refl
marks-non_pk_cols (f ∷ fs) h = elim (Bool-cases f.is_pk) [
  | inl e ↦ rw e (marks-non_pk_cols fs h.1)
  | inr e ↦ rw e (omega (arith, h.0.column_plain, marks-non_pk_cols fs h.1))
]

if_same : (b : Bool) (n : ℕ) → (if b then n else n) ≡ n
if_same true n = refl
if_same false n = refl

if_zero : (b : Bool) (n : ℕ) → n ≡ 0 → (if b then n else 0) ≡ 0
if_zero true n e = e
if_zero false n e = refl

marks-returning :
    (driver : String) (meta : ModelMeta) → IsPlainMeta meta → marks (returning driver meta) ≡ 0
unfolding returning count_marks pk_column
marks-returning driver meta plain = split meta.pk_field refl
  where
    split : (o : Option Field) → meta.pk_field ≡ o → marks (returning driver meta) ≡ 0
    split none e = rw e (marks-if (is_pg driver) "" "" ∙ if_same (is_pg driver) 0)
    split (some f) e =
        let plain_column = rw e at plain.pk_plain in
        rw e (
          marks-if (is_pg driver) (" RETURNING " <> f.column) ""
          ∙ if_zero (is_pg driver) _ (omega (arith, marks-append " RETURNING " f.column)))

pub marks-group : (phs : List String) → marks (group phs) ≡ marks_list phs
unfolding count_marks
marks-group phs = simp (marks-append, marks-join phs) (omega arith)

pub marks-insert_text :
    (driver schema : String) (meta : ModelMeta) (groups : List String)
    → marks schema ≡ 0
    → IsPlainMeta meta
    → All IsPlainField meta.fields
    → marks (insert_text driver schema meta groups) ≡ marks_list groups
unfolding insert_text count_marks
marks-insert_text driver schema meta groups unmarked plain fields =
    simp (marks-append, marks-join)
      (omega (
        arith,
        marks-qualified_table schema meta.table unmarked plain.table_plain,
        marks-non_pk_cols meta.fields fields,
        marks-returning driver meta plain,
      ))

module _ {ℓ} {A : Type ℓ} (hash encrypt : String → Option String) where
  cell_values-marks :
      (f : Field) (c : Cell A) (p : String × List (Arg A))
      → marks f.default_sql ≡ 0
      → cell_values hash encrypt f c ≡ ok p
      → (marks p.0 ≡ length p.1) × (length p.1 ≤ 1)
  unfolding cell_values count_marks
  cell_values-marks f c p plain h = split (stored hash encrypt f (arg_of c)) refl
    where
      split :
          (r : Result OrmError (Arg A))
          → stored hash encrypt f (arg_of c) ≡ r
          → (marks p.0 ≡ length p.1) × (length p.1 ≤ 1)
      split (err e) k = elim (Bool-cases (not (str_eq f.default_sql "") && is_zero_value c)) [
        | inl b ↦
            let same : (f.default_sql, []) ≡ p = ground arith in
            subst (λ q. (marks q.0 ≡ length q.1) × (length q.1 ≤ 1)) same (plain, omega arith)
        | inr b ↦ absurd (ground arith)
      ]
      split (ok v) k = elim (Bool-cases (not (str_eq f.default_sql "") && is_zero_value c)) [
        | inl b ↦
            let same : (f.default_sql, []) ≡ p = ground arith in
            subst (λ q. (marks q.0 ≡ length q.1) × (length q.1 ≤ 1)) same (plain, omega arith)
        | inr b ↦
            let same : ("?", v ∷ []) ≡ p = ground arith in
            subst (λ q. (marks q.0 ≡ length q.1) × (length q.1 ≤ 1)) same (refl, omega arith)
      ]

  row_values_cons :
      (draw : Field → String) (f : Field) (fs : List Field) (row : ℕ → Cell A) (r : RowValues A)
      → f.is_pk ≡ false
      → row_values hash encrypt draw (f ∷ fs) row ≡ ok r
      → (c : Cell A) × (p : String × List (Arg A)) × (s : RowValues A) × (cell_values hash encrypt f
            c
          ≡ ok p)
        × (row_values hash encrypt draw fs (set_field f.go_index c row) ≡ ok s)
        × (r ≡ record { phs = p.0 ∷ s.phs; args = p.1 ++ s.args; row = s.row })
  unfolding row_values
  row_values_cons draw f fs row r np h =
      split (cell_values hash encrypt f (cell)) refl
        (row_values hash encrypt draw fs (set_field f.go_index cell row)) refl
    where
      cell : Cell A
      cell = with_nano_id (draw f) f (row f.go_index)

      split :
          (o : Result OrmError (String × List (Arg A)))
          → cell_values hash encrypt f cell ≡ o
          → (rest : Result OrmError (RowValues A))
          → row_values hash encrypt draw fs (set_field f.go_index cell row) ≡ rest
          → (c : Cell A) × (p : String × List (Arg A)) × (s : RowValues A) × (cell_values hash
                encrypt f c
              ≡ ok p)
            × (row_values hash encrypt draw fs (set_field f.go_index c row) ≡ ok s)
            × (r ≡ record { phs = p.0 ∷ s.phs; args = p.1 ++ s.args; row = s.row })
      split (err e) k rest l = absurd (ground arith)
      split (ok p) k (err e) l = absurd (ground arith)
      split (ok p) k (ok s) l = (cell, p, s, k, l, ground arith)

  -- As many arguments as placeholders, and at most one for each field.
  abbrev pub BalancedRow : List Field → RowValues A → Type 0
  BalancedRow fs r = (marks_list r.phs ≡ length r.args) × (length r.args ≤ length fs)

  pub row_values_balanced :
      (draw : Field → String) (fs : List Field) (row : ℕ → Cell A) (r : RowValues A)
      → All IsPlainField fs
      → row_values hash encrypt draw fs row ≡ ok r
      → BalancedRow fs r
  unfolding row_values
  row_values_balanced draw [] row r plain h =
      let same : record { phs = []; args = []; row = row } ≡ r = ground arith in
      subst (BalancedRow []) same (refl, omega arith)
  row_values_balanced draw (f ∷ fs) row r plain h = elim (Bool-cases f.is_pk) [
    | inl e ↦
        let rest = row_values_balanced draw fs row r plain.1 (rw e at h) in
        (rest.0, omega (arith, rest.1))
    | inr e ↦
        let (c, p, s, k, l, same) = row_values_cons draw f fs row r e h in
        let rest = row_values_balanced draw fs _ s plain.1 l in
        let here = cell_values-marks f c p plain.0.default_plain k in
        subst (BalancedRow (f ∷ fs)) (sym same) (
          omega (arith, here, rest, length-append p.1 s.args),
          omega (arith, here, rest, length-append p.1 s.args),
        )
  ]
