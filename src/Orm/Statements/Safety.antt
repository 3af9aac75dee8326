-- ===== src/Orm/Statements/Safety.antt =====
-- What the executing methods send: balanced statements, and no DELETE without a WHERE.
use framework_kyrux.Prelude.{
  Result, err, some, ◌≡◌, ◌≢◌, ◌⊎◌, inl, inr, refl, sym, ap, ◌∙◌, String, true, List, [], ◌∷◌, ◌<>◌,
  Option, none, arith, length, ok,
}
use framework_kyrux.Prelude.Dict.{Dict, keys}
use framework_kyrux.Orm.Marks.{marks, count_marks, marks-append}
use framework_kyrux.Orm.Ident.{valid_ident, marks-valid_ident}
use framework_kyrux.Orm.Model.{Arg, OrmError}
use framework_kyrux.Orm.Query.{Query, WhereClause}
use framework_kyrux.Orm.Rewrite.{rewrite_placeholders}
use framework_kyrux.Orm.Query.Balance.{IsBalanced}
use framework_kyrux.Orm.Select.{select_text, select_args, qualified_table, where_text, more_wheres}
use framework_kyrux.Orm.Select.Balance.{
  marks-where_text, marks-from_text, marks-qualified_table, marks-select_text,
}
use framework_kyrux.Orm.Last.{reversed}
use framework_kyrux.Orm.Last.Balance.{reversed-IsBalanced}
use framework_kyrux.Orm.Statements.{
  Statement, exists_text, count_text, aggregate_text, aggregate_statement, delete_text,
  delete_statement, update_known, update_statement, unknown_column, sort_texts,
}

List-cases {ℓ} :
    {A : Type ℓ} (xs : List A) → (xs ≡ []) ⊎ ((x : A) × ((ys : List A) × (xs ≡ x ∷ ys)))
List-cases [] = inl refl
List-cases (x ∷ xs) = inr (x, (xs, refl))

module _ {ℓ} {A : Type ℓ} where
  -- A DELETE with a first condition, and what follows it.
  abbrev pub delete_where : Query A → WhereClause → String → String
  delete_where q w rest =
      "DELETE FROM "
      <> (qualified_table q.schema q.meta.table
          <> (" WHERE " <> ("(" <> (w.cond <> (")" <> rest)))))

  -- Of a query that is in step: the texts of Exists, Count and Delete have exactly as many
  -- placeholders as the query has arguments, and the SELECT of Last, with the order reversed or by
  -- the key, as many as the arguments that are sent with it.
  pub statements_balanced :
      (q : Query A)
      → IsBalanced q
      → (marks (exists_text q) ≡ length q.args)
        × (marks (count_text q) ≡ length q.args)
        × (marks (delete_text q) ≡ length q.args)
        × (marks (select_text 1 (reversed q)) ≡ length (select_args 1 (reversed q)))
  unfolding exists_text count_text delete_text count_marks
  statements_balanced q b =
      let from = marks-from_text q b in
      let table =
        marks-qualified_table q.schema q.meta.table b.schema_plain b.meta_plain.table_plain in
      (
        simp (marks-append, marks-where_text) (omega (arith, from, b.conds)),
        simp (marks-append, marks-where_text) (omega (arith, from, b.conds)),
        simp (marks-append, marks-where_text) (omega (arith, table, b.conds)),
        marks-select_text 1 (reversed q) (reversed-IsBalanced q b),
      )

  aggregate_sent :
      (fn col : String) (q : Query A) (st : Statement A)
      → aggregate_statement fn col q ≡ ok st
      → (valid_ident col ≡ true) × (st.args ≡ q.args)
  unfolding aggregate_statement
  aggregate_sent fn col q st h = ground arith

  -- An aggregate that is sent, of a query that is in step and by a function whose name holds no
  -- placeholder, has as many placeholders as arguments.
  aggregate_balanced :
      (fn col : String) (q : Query A) (st : Statement A)
      → IsBalanced q
      → marks fn ≡ 0
      → aggregate_statement fn col q ≡ ok st
      → marks (aggregate_text fn col q) ≡ length st.args
  unfolding aggregate_text count_marks
  aggregate_balanced fn col q st b h e =
      let (valid, same) = aggregate_sent fn col q st e in
      rw same (
        simp (marks-append, marks-where_text)
          (omega (arith, marks-from_text q b, b.conds, h, marks-valid_ident col valid)))

  delete_parts :
      (q : Query A) (st : Statement A)
      → delete_statement q ≡ ok st
      → (q.wheres ≢ [])
        × (q.joins ≡ [])
        × (st.sql ≡ rewrite_placeholders q.driver (delete_text q))
        × (st.args ≡ q.args)
  unfolding delete_statement
  delete_parts q st h = ground arith

  delete_text-where :
      (q : Query A) (w : WhereClause) (ws : List WhereClause)
      → q.wheres ≡ w ∷ ws
      → delete_text q ≡ delete_where q w (more_wheres ws)
  unfolding delete_text where_text
  delete_text-where q w ws e =
      ap (λ l. "DELETE FROM " <> (qualified_table q.schema q.meta.table <> where_text l)) e

  delete_refused :
      (q : Query A) (e : OrmError)
      → delete_statement q ≡ err e
      → (q.err ≡ some e) ⊎ (q.wheres ≡ []) ⊎ (q.joins ≢ [])
  unfolding delete_statement
  delete_refused q e h = ground arith

  -- Of a query that is in step, a DELETE is sent that names the table of the query and no other,
  -- then has a WHERE with the first condition of the query in parentheses, and goes with the query's
  -- arguments, as many as it has placeholders before their numbering; or nothing is sent, because of
  -- the error that the query has recorded, or because it has no condition or a JOIN.
  pub delete_statement_lem :
      (q : Query A)
      → IsBalanced q
      → ((st : Statement A) × (w : WhereClause) × (ws : List WhereClause) × (rest : String)
          × (delete_statement q ≡ ok st)
          × (q.wheres ≡ w ∷ ws)
          × (q.joins ≡ [])
          × (st.sql ≡ rewrite_placeholders q.driver (delete_where q w rest))
          × (st.args ≡ q.args)
          × (marks (delete_where q w rest) ≡ length st.args))
        ⊎ ((e : OrmError) × (delete_statement q ≡ err e)
            × ((q.err ≡ some e) ⊎ (q.wheres ≡ []) ⊎ (q.joins ≢ [])))
  delete_statement_lem q b = split (delete_statement q) refl
    where
      split :
          (r : Result OrmError (Statement A))
          → delete_statement q ≡ r
          → ((st : Statement A) × (w : WhereClause) × (ws : List WhereClause) × (rest : String)
              × (delete_statement q ≡ ok st)
              × (q.wheres ≡ w ∷ ws)
              × (q.joins ≡ [])
              × (st.sql ≡ rewrite_placeholders q.driver (delete_where q w rest))
              × (st.args ≡ q.args)
              × (marks (delete_where q w rest) ≡ length st.args))
            ⊎ ((e : OrmError) × (delete_statement q ≡ err e)
                × ((q.err ≡ some e) ⊎ (q.wheres ≡ []) ⊎ (q.joins ≢ [])))
      split (err e) h = inr (e, h, delete_refused q e h)
      split (ok st) h =
          let (some_where, no_join, sent, same) = delete_parts q st h in
          elim (List-cases q.wheres) [
            | inl e ↦ absurd (some_where e)
            | inr (w, (ws, e)) ↦
                let text = delete_text-where q w ws e in
                inl (
                  st,
                  w,
                  ws,
                  more_wheres ws,
                  h,
                  e,
                  no_join,
                  sent ∙ ap (rewrite_placeholders q.driver) text,
                  same,
                  ap marks (sym text) ∙ (statements_balanced q b).2 ∙ ap length (sym same),
                )
          ]

  pub update_sent :
      (hash encrypt : String → Option String) (values : Dict (Arg A)) (q : Query A)
      (st : Statement A)
      → update_statement hash encrypt values q ≡ ok st
      → (q.err ≡ none)
        × (q.wheres ≢ [])
        × (q.joins ≡ [])
        × (unknown_column q.meta.col_to_field (keys values) ≡ none)
        × (update_known hash encrypt (sort_texts (keys values)) values q ≡ ok st)
  unfolding update_statement
  update_sent hash encrypt values q st h = ground arith
