-- ===== src/Orm/Query/Methods.antt =====
-- The calls of the builder as data (core/orm/query.go), and chains of them.
use framework_kyrux.Prelude.{ℕ, String, true, false, List, [], ◌∷◌}
use framework_kyrux.Orm.Model.{Arg}
use framework_kyrux.Orm.Query.{
  Query, select, add_order_by, set_distinct, add_join, where_sql, or_where_sql, where_op,
  where_null, where_not_null, where_in, search, set_limit, set_offset,
}

-- The operators of the typed methods WhereEq, WhereNe, WhereGt, WhereGte, WhereLt, WhereLte and
-- WhereLike.
pub data Op : Type 0 where
  eq ne gt gte lt lte like : Op

abbrev pub op_text : Op → String
op_text eq = "="
op_text ne = "<>"
op_text gt = ">"
op_text gte = ">="
op_text lt = "<"
op_text lte = "<="
op_text like = "LIKE"

-- A call of a method of the builder.
pub data Method {ℓ} (A : Type ℓ) : Type ℓ where
  selects orders : List String → Method A
  distincts : Method A
  joins_inner joins_left : String → String → Method A
  filters_sql filters_or_sql : String → List (Arg A) → Method A
  filters filters_or : Op → String → Arg A → Method A
  filters_null filters_not_null : String → Method A
  filters_in : String → List (Arg A) → Method A
  searches : String → String → Method A
  limits offsets : ℕ → Method A

module _ {ℓ} {A : Type ℓ} where
  unfoldable pub apply : Method A → Query A → Query A
  apply (selects cols) q = select cols q
  apply (orders cols) q = add_order_by cols q
  apply distincts q = set_distinct q
  apply (joins_inner table on) q = add_join "INNER" table on q
  apply (joins_left table on) q = add_join "LEFT" table on q
  apply (filters_sql cond args) q = where_sql cond args q
  apply (filters_or_sql cond args) q = or_where_sql cond args q
  apply (filters op col val) q = where_op col (op_text op) val false q
  apply (filters_or op col val) q = where_op col (op_text op) val true q
  apply (filters_null col) q = where_null col q
  apply (filters_not_null col) q = where_not_null col q
  apply (filters_in col vals) q = where_in col vals q
  apply (searches col term) q = search col term q
  apply (limits n) q = set_limit n q
  apply (offsets n) q = set_offset n q

  -- A chain of calls, the first one first.
  unfoldable pub chain : List (Method A) → Query A → Query A
  chain [] q = q
  chain (m ∷ ms) q = chain ms (apply m q)
