-- ===== src/Orm/Query/Chains.antt =====
-- A chain of calls of the builder keeps the placeholders in step with the arguments.
use framework_kyrux.Prelude.{◌≡◌, refl, String, List, [], ◌∷◌, All, length}
use framework_kyrux.Orm.Marks.{marks, count_marks}
use framework_kyrux.Orm.Model.{ModelMeta}
use framework_kyrux.Orm.Query.{
  Query, from_db, set_distinct, set_limit, set_offset, where_sql, or_where_sql,
}
use framework_kyrux.Orm.Query.Methods.{
  Op, op_text, eq, Method, selects, orders, joins_inner, joins_left, filters_sql, filters_or_sql,
  filters, filters_or, filters_null, filters_not_null, filters_in, searches, apply, chain,
}
use framework_kyrux.Orm.Query.Balance.{
  IsPlainMeta, IsBalanced, add_where-IsBalanced, select-IsBalanced, add_order_by-IsBalanced,
  add_join-IsBalanced, where_op-IsBalanced, where_null-IsBalanced, where_not_null-IsBalanced,
  where_in-IsBalanced,
}
use framework_kyrux.Orm.Query.Searches.{search-IsBalanced}

-- What the builder asks of its caller: free SQL has as many placeholders as arguments.
abbrev pub IsWellFormed {ℓ} : {A : Type ℓ} → Method A → Type 0
IsWellFormed (filters_sql cond args) = marks cond ≡ length args
IsWellFormed (filters_or_sql cond args) = marks cond ≡ length args
IsWellFormed _ = Unit

op_text-plain : (op : Op) → marks (op_text op) ≡ 0
unfolding count_marks
op_text-plain eq = refl
op_text-plain _ = refl

module _ {ℓ} {A : Type ℓ} where
  pub apply-IsBalanced :
      (m : Method A) (q : Query A) → IsWellFormed m → IsBalanced q → IsBalanced (apply m q)
  unfolding apply count_marks where_sql or_where_sql set_distinct set_limit set_offset
  apply-IsBalanced (selects cols) q h b = select-IsBalanced cols q b
  apply-IsBalanced (orders cols) q h b = add_order_by-IsBalanced cols q b
  apply-IsBalanced (joins_inner table on) q h b = add_join-IsBalanced "INNER" table on q refl b
  apply-IsBalanced (joins_left table on) q h b = add_join-IsBalanced "LEFT" table on q refl b
  apply-IsBalanced (filters_sql cond args) q h b = add_where-IsBalanced cond _ args q h b
  apply-IsBalanced (filters_or_sql cond args) q h b = add_where-IsBalanced cond _ args q h b
  apply-IsBalanced (filters op col val) q h b =
      where_op-IsBalanced col (op_text op) val _ q (op_text-plain op) b
  apply-IsBalanced (filters_or op col val) q h b =
      where_op-IsBalanced col (op_text op) val _ q (op_text-plain op) b
  apply-IsBalanced (filters_null col) q h b = where_null-IsBalanced col q b
  apply-IsBalanced (filters_not_null col) q h b = where_not_null-IsBalanced col q b
  apply-IsBalanced (filters_in col vals) q h b = where_in-IsBalanced col vals q b
  apply-IsBalanced (searches col term) q h b = search-IsBalanced col term q b
  apply-IsBalanced _ q h b = record {
    conds = b.conds;
    orders = b.orders;
    cols_plain = b.cols_plain;
    joins_plain = b.joins_plain;
    schema_plain = b.schema_plain;
    meta_plain = b.meta_plain;
    unranked = b.unranked;
  }

  pub chain-IsBalanced :
      (ms : List (Method A)) (q : Query A)
      → All IsWellFormed ms
      → IsBalanced q
      → IsBalanced (chain ms q)
  unfolding chain
  chain-IsBalanced [] q h b = b
  chain-IsBalanced (m ∷ ms) q h b = chain-IsBalanced ms (apply m q) h.1 (apply-IsBalanced m q h.0 b)

  pub from_db-IsBalanced :
      (driver schema : String) (meta : ModelMeta)
      → marks schema ≡ 0
      → IsPlainMeta meta
      → IsBalanced (from_db {A = A} driver schema meta)
  unfolding from_db
  from_db-IsBalanced driver schema meta h k = record {
    conds = refl;
    orders = refl;
    cols_plain = refl;
    joins_plain = refl;
    schema_plain = h;
    meta_plain = k;
    unranked = λ _. refl;
  }
