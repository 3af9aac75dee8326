-- ===== src/Orm/Select/Balance.antt =====
-- The SQL that a balanced query builds has as many placeholders as arguments.
use framework_kyrux.Prelude.{
  ℕ, ◌+◌, ◌≡◌, refl, ◌∙◌, String, List, [], ◌∷◌, arith, ltb, length, length-append, length-if,
  if◌then◌else◌, All, join,
}
use framework_kyrux.Orm.Marks.{marks, count_marks, marks-append, marks-if, marks-join, marks_list}
use framework_kyrux.Orm.Model.{ModelMeta}
use framework_kyrux.Orm.Query.{WhereClause, Query, from_db}
use framework_kyrux.Orm.Query.Methods.{Method, chain}
use framework_kyrux.Orm.Query.Balance.{IsPlainMeta, IsBalanced, marks_wheres}
use framework_kyrux.Orm.Query.Chains.{IsWellFormed, chain-IsBalanced, from_db-IsBalanced}
use framework_kyrux.Orm.Select.{
  qualified_table, more_wheres, where_text, join_texts, order_text, columns_text, from_text,
  select_head, select_text, select_args, page_text, limit_of, build_select, build_select_page,
}

pub marks-qualified_table :
    (schema table : String)
    → marks schema ≡ 0
    → marks table ≡ 0
    → marks (qualified_table schema table) ≡ 0
unfolding qualified_table count_marks
marks-qualified_table schema table h k = simp (marks-if, marks-append) (ground arith)

marks-more_wheres : (ws : List WhereClause) → marks (more_wheres ws) ≡ marks_wheres ws
unfolding more_wheres count_marks
marks-more_wheres [] = refl
marks-more_wheres (w ∷ ws) = simp (marks-if, marks-append, marks-more_wheres ws) (ground arith)

pub marks-where_text : (ws : List WhereClause) → marks (where_text ws) ≡ marks_wheres ws
unfolding where_text count_marks
marks-where_text [] = refl
marks-where_text (w ∷ ws) = simp (marks-append, marks-more_wheres ws) (omega arith)

marks-join_texts : (js : List String) → marks (join_texts js) ≡ marks_list js
unfolding join_texts count_marks
marks-join_texts [] = refl
marks-join_texts (j ∷ js) = simp (marks-append, marks-join_texts js) (omega arith)

marks-order_text : (ts : List String) → marks (order_text ts) ≡ marks_list ts
unfolding order_text count_marks
marks-order_text [] = refl
marks-order_text (t ∷ ts) =
    rw (marks-append " ORDER BY " (join ", " (t ∷ ts))) (omega (arith, marks-join (t ∷ ts)))

marks-columns_text :
    (cols joins : List String) (table : String)
    → marks_list cols ≡ 0
    → marks table ≡ 0
    → marks (columns_text cols joins table) ≡ 0
unfolding columns_text count_marks
marks-columns_text (c ∷ cs) joins table h k = marks-join (c ∷ cs) ∙ h
marks-columns_text [] (j ∷ js) table h k = simp marks-append (omega (arith, k))
marks-columns_text [] [] table h k = refl

module _ {ℓ} {A : Type ℓ} where
  pub marks-from_text : (q : Query A) → IsBalanced q → marks (from_text q) ≡ 0
  unfolding from_text count_marks
  marks-from_text q b =
      simp (marks-append, marks-join_texts q.joins)
        (omega (
          arith,
          marks-qualified_table q.schema q.meta.table b.schema_plain b.meta_plain.table_plain,
          b.joins_plain,
        ))

  marks-select_head : (q : Query A) → IsBalanced q → marks (select_head q) ≡ 0
  unfolding select_head count_marks
  marks-select_head q b =
      simp (marks-append, marks-if)
        (ground (
          arith,
          marks-columns_text q.cols q.joins q.meta.table b.cols_plain b.meta_plain.table_plain,
          marks-from_text q b,
        ))

  pub length-select_args :
      (lim : ℕ) (q : Query A)
      → length (select_args lim q)
        ≡ length q.args
          + length q.rank_args
          + ((if ltb 0 lim then 1 else 0) + (if ltb 0 q.offset then 1 else 0))
  unfolding select_args
  length-select_args lim q = simp (length-append, length-if) (ground arith)

  pub marks-select_text :
      (lim : ℕ) (q : Query A)
      → IsBalanced q
      → marks (select_text lim q) ≡ length (select_args lim q)
  unfolding select_text count_marks
  marks-select_text lim q b = rw (length-select_args lim q) (
      simp (marks-append, marks-if, marks-where_text, marks-order_text)
        (omega (arith, marks-select_head q b, b.conds, b.orders)))

  marks-page_text :
      (q : Query A) → IsBalanced q → marks (page_text q) ≡ length q.args + length q.rank_args + 2
  unfolding page_text count_marks
  marks-page_text q b =
      simp (marks-append, marks-where_text, marks-order_text)
        (omega (arith, marks-select_head q b, b.conds, b.orders))

-- For every chain of builder calls whose free SQL conditions carry an argument for each of their
-- placeholders, on a model and a schema whose names hold none: the text of the SELECT, under every
-- forced limit, and that of the page SELECT have exactly as many placeholders as the arguments
-- that are sent with them.
pub chain_select_balanced {ℓ} :
    {A : Type ℓ} (ms : List (Method A)) (driver schema : String) (meta : ModelMeta)
    (force page_size offset : ℕ)
    → All IsWellFormed ms
    → marks schema ≡ 0
    → IsPlainMeta meta
    → let q = chain ms (from_db driver schema meta) in
      (marks (select_text (limit_of force q) q) ≡ length (build_select force q).1)
      × (marks (page_text q) ≡ length (build_select_page page_size offset q).1)
unfolding build_select build_select_page
chain_select_balanced ms driver schema meta force page_size offset h k m =
    let b = chain-IsBalanced ms _ h (from_db-IsBalanced driver schema meta k m) in
    (marks-select_text _ _ b, simp length-append (omega (arith, marks-page_text _ b)))
