-- ===== src/Orm/Select.antt =====
-- The SQL text of a query and its arguments (core/orm/query.go: writeWhere, writeFrom,
-- writeSelectHead, writeOrderBy, buildSelect, buildSelectPage; core/orm/exec.go: qualifiedTable).
pub mod Balance
use framework_kyrux.Prelude.{
  ℕ, String, List, [], ◌∷◌, ◌++◌, ltb, str_eq, length, if◌then◌else◌, ◌||◌, ◌<>◌, join,
}
use framework_kyrux.Orm.Rewrite.{rewrite_placeholders}
use framework_kyrux.Orm.Model.{Arg, number}
use framework_kyrux.Orm.Query.{Query, WhereClause}

unfoldable pub qualified_table : String → String → String
qualified_table schema table = if str_eq schema "" then table else schema <> ("." <> table)

-- The conditions after the first, each with the connective that links it.
unfoldable pub more_wheres : List WhereClause → String
more_wheres [] = ""
more_wheres (w ∷ ws) =
    (if w.is_or then " OR " else " AND ") <> ("(" <> (w.cond <> (")" <> more_wheres ws)))

unfoldable pub where_text : List WhereClause → String
unfolding more_wheres
where_text [] = ""
where_text (w ∷ ws) = " WHERE " <> ("(" <> (w.cond <> (")" <> more_wheres ws)))

unfoldable pub join_texts : List String → String
join_texts [] = ""
join_texts (j ∷ js) = " " <> (j <> join_texts js)

unfoldable pub order_text : List String → String
order_text [] = ""
order_text (t ∷ ts) = " ORDER BY " <> join ", " (t ∷ ts)

-- The selected columns: those of Select; with a JOIN, those of the base table; else all.
unfoldable pub columns_text : List String → List String → String → String
columns_text (c ∷ cs) joins table = join ", " (c ∷ cs)
columns_text [] (j ∷ js) table = table <> ".*"
columns_text [] [] table = "*"

module _ {ℓ} {A : Type ℓ} where
  unfoldable pub from_text : Query A → String
  from_text q = " FROM " <> (qualified_table q.schema q.meta.table <> join_texts q.joins)

  unfoldable pub select_head : Query A → String
  select_head q =
      "SELECT "
      <> ((if q.distinct then "DISTINCT " else "")
          <> (columns_text q.cols q.joins q.meta.table <> from_text q))

  -- The text of buildSelect before its placeholders are rewritten; `lim` is the limit in force.
  unfoldable pub select_text : ℕ → Query A → String
  select_text lim q =
      select_head q
      <> (where_text q.wheres
          <> (order_text q.order_by
              <> ((if ltb 0 lim then " LIMIT ?" else "")
                  <> (if ltb 0 q.offset then " OFFSET ?" else ""))))

  unfoldable pub select_args : ℕ → Query A → List (Arg A)
  select_args lim q =
      (if ltb 0 (length q.rank_args) || ltb 0 lim || ltb 0 q.offset
        then q.args ++ q.rank_args
        else q.args)
      ++ ((if ltb 0 lim then number lim ∷ [] else [])
          ++ (if ltb 0 q.offset then number q.offset ∷ [] else []))

  -- A positive forced limit takes the place of the query's.
  unfoldable pub limit_of : ℕ → Query A → ℕ
  limit_of force q = if ltb 0 force then force else q.limit

  unfoldable pub build_select : ℕ → Query A → String × List (Arg A)
  build_select force q = (
    rewrite_placeholders q.driver (select_text (limit_of force q) q),
    select_args (limit_of force q) q,
  )

  -- The text of buildSelectPage, whose LIMIT and OFFSET always stand.
  unfoldable pub page_text : Query A → String
  page_text q =
      select_head q <> (where_text q.wheres <> (order_text q.order_by <> " LIMIT ? OFFSET ?"))

  unfoldable pub build_select_page : ℕ → ℕ → Query A → String × List (Arg A)
  build_select_page page_size offset q = (
    rewrite_placeholders q.driver (page_text q),
    q.args ++ (q.rank_args ++ (number page_size ∷ number offset ∷ [])),
  )
