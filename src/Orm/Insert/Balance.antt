-- ===== src/Orm/Insert/Balance.antt =====
-- The placeholders and the arguments of an INSERT.
use framework_kyrux.Prelude.{
  ℕ, suc, ◌*◌, ◌≡◌, ◌≤◌, refl, sym, String, List, [], ◌∷◌, ◌++◌, Option, arith, length,
  length-append, All, Result, ok, err, subst,
}
use framework_kyrux.Orm.Marks.{marks, marks_list}
use framework_kyrux.Orm.Rewrite.{rewrite_placeholders}
use framework_kyrux.Orm.Model.{Field, ModelMeta, OrmError}
use framework_kyrux.Orm.Query.Balance.{IsPlainMeta}
use framework_kyrux.Orm.Statements.{Statement}
use framework_kyrux.Orm.Insert.{
  Cell, RowValues, ChunkValues, row_values, group, chunk_values, insert_text, insert_statement,
  insert_chunk,
}
use framework_kyrux.Orm.Insert.Rows.{
  IsPlainField, marks-group, marks-insert_text, row_values_balanced,
}

module _ {ℓ} {A : Type ℓ} (hash encrypt : String → Option String) where
  chunk_values_cons :
      (draws : ℕ → Field → String) (i : ℕ) (fs : List Field) (row : ℕ → Cell A)
      (rows : List (ℕ → Cell A)) (c : ChunkValues A)
      → chunk_values hash encrypt draws i fs (row ∷ rows) ≡ ok c
      → (r : RowValues A) × (d : ChunkValues A) × (row_values hash encrypt (draws i) fs row ≡ ok r)
        × (chunk_values hash encrypt draws (suc i) fs rows ≡ ok d)
        × (c ≡ record {
          groups = group r.phs ∷ d.groups;
          args = r.args ++ d.args;
          rows = r.row ∷ d.rows;
        })
  unfolding chunk_values
  chunk_values_cons draws i fs row rows c h =
      split (row_values hash encrypt (draws i) fs row) refl
        (chunk_values hash encrypt draws (suc i) fs rows) refl
    where
      split :
          (o : Result OrmError (RowValues A))
          → row_values hash encrypt (draws i) fs row ≡ o
          → (rest : Result OrmError (ChunkValues A))
          → chunk_values hash encrypt draws (suc i) fs rows ≡ rest
          → (r : RowValues A) × (d : ChunkValues A) × (row_values hash encrypt (draws i) fs row
              ≡ ok r)
            × (chunk_values hash encrypt draws (suc i) fs rows ≡ ok d)
            × (c ≡ record {
              groups = group r.phs ∷ d.groups;
              args = r.args ++ d.args;
              rows = r.row ∷ d.rows;
            })
      split (err e) k rest l = absurd (ground arith)
      split (ok r) k (err e) l = absurd (ground arith)
      split (ok r) k (ok d) l = (r, d, k, l, ground arith)

  abbrev BalancedChunk : ℕ → List Field → ChunkValues A → Type 0
  BalancedChunk n fs c = (marks_list c.groups ≡ length c.args) × (length c.args ≤ n * length fs)

  chunk_values_balanced :
      (draws : ℕ → Field → String) (i : ℕ) (fs : List Field) (rows : List (ℕ → Cell A))
      (c : ChunkValues A)
      → All IsPlainField fs
      → chunk_values hash encrypt draws i fs rows ≡ ok c
      → BalancedChunk (length rows) fs c
  unfolding chunk_values
  chunk_values_balanced draws i fs [] c plain h =
      let same : record { groups = []; args = []; rows = [] } ≡ c = ground arith in
      subst (BalancedChunk 0 fs) same (refl, omega arith)
  chunk_values_balanced draws i fs (row ∷ rows) c plain h =
      let (r, d, k, l, same) = chunk_values_cons draws i fs row rows c h in
      let here = row_values_balanced hash encrypt (draws i) fs row r plain k in
      let rest = chunk_values_balanced draws (suc i) fs rows d plain l in
      subst (BalancedChunk (suc (length rows)) fs) (sym same) (
        omega (arith, here, rest, length-append r.args d.args, marks-group r.phs),
        omega (arith, here, rest, length-append r.args d.args),
      )

  -- The INSERT that insertChunk sends for some rows, and createInto for one, has as many
  -- placeholders, before their numbering, as arguments, and at most one argument for each field of
  -- each row, if the table, the columns and the defaults of the model and the schema hold none.
  pub insert_chunk_balanced :
      (driver schema : String) (meta : ModelMeta) (draws : ℕ → Field → String) (i : ℕ)
      (rows : List (ℕ → Cell A)) (statement : Statement A)
      → marks schema ≡ 0
      → IsPlainMeta meta
      → All IsPlainField meta.fields
      → insert_chunk hash encrypt driver schema meta draws i rows ≡ ok statement
      → (sql : String) × (statement.sql ≡ rewrite_placeholders driver sql)
        × (marks sql ≡ length statement.args)
        × (length statement.args ≤ length rows * length meta.fields)
  unfolding insert_chunk insert_statement
  insert_chunk_balanced driver schema meta draws i rows statement unmarked plain fields h =
      split (chunk_values hash encrypt draws i meta.fields rows) refl
    where
      Holds : Statement A → Type 0
      Holds st =
          (sql : String) × (st.sql ≡ rewrite_placeholders driver sql)
          × (marks sql ≡ length st.args)
          × (length st.args ≤ length rows * length meta.fields)

      split :
          (o : Result OrmError (ChunkValues A))
          → chunk_values hash encrypt draws i meta.fields rows ≡ o
          → Holds statement
      split (err e) k = absurd (ground arith)
      split (ok c) k =
          let same : insert_statement driver schema meta c ≡ statement = ground arith in
          let chunk = chunk_values_balanced draws i meta.fields rows c fields k in
          subst Holds same (
            insert_text driver schema meta c.groups,
            refl,
            omega
                (arith, chunk, marks-insert_text driver schema meta c.groups unmarked plain fields),
            chunk.1,
          )
