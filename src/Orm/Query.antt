-- ===== src/Orm/Query.antt =====
-- The fluent builder (core/orm/query.go and orm.go): the state of a query and every method that
-- changes it. A method returns the changed query; a recorded error stays in `err`. `Limit` and
-- `Offset` take natural numbers: the code treats every number below 1 as it treats 0.
pub mod Methods
pub mod Balance
pub mod Searches
pub mod Chains
use framework_kyrux.Prelude.{
  ℕ, String, Bool, true, false, List, [], ◌∷◌, ◌++◌, map, Option, none, some, ltb, length,
  if◌then◌else◌, str_eq, ◌||◌, not, ◌<>◌,
}
use framework_kyrux.Prelude.Dict.{lookup}
use framework_kyrux.Orm.Ident.{valid_ident, valid_join_on}
use framework_kyrux.Orm.Rewrite.{is_pg}
use framework_kyrux.Orm.Model.{
  Field, ModelMeta, Arg, value, text, slice, OrmError, select_ident, join_table, join_on,
  where_ident, where_in_ident, where_in_size, search_ident, search_column, search_driver,
  order_by_ident,
}

-- whereClause
pub record WhereClause : Type 0 where
  pub cond : String
  pub is_or : Bool

pub record Query {ℓ} (A : Type ℓ) : Type ℓ where
  pub driver : String
  pub schema : String
  pub meta : ModelMeta
  pub cols : List String
  pub joins : List String
  pub wheres : List WhereClause
  pub args : List (Arg A)
  pub order_by : List String
  pub rank_args : List (Arg A)
  pub distinct : Bool
  pub limit : ℕ
  pub offset : ℕ
  pub err : Option OrmError

-- FromDB and FromTx: the empty query on a connection.
unfoldable pub from_db {ℓ} : {A : Type ℓ} → String → String → ModelMeta → Query A
from_db driver schema meta = record {
  driver = driver;
  schema = schema;
  meta = meta;
  cols = [];
  joins = [];
  wheres = [];
  args = [];
  order_by = [];
  rank_args = [];
  distinct = false;
  limit = 0;
  offset = 0;
  err = none;
}

-- The first text that is no identifier.
first_invalid : List String → Option String
first_invalid [] = none
first_invalid (c ∷ cs) = if valid_ident c then first_invalid cs else some c

-- The placeholders of an IN list after its first: `, ?` for each.
more_marks {ℓ} : {A : Type ℓ} → List A → String
more_marks [] = ""
more_marks (v ∷ vs) = ", ?" <> more_marks vs

-- A single argument that is a slice is expanded.
expand {ℓ} : {A : Type ℓ} → List (Arg A) → List (Arg A)
expand (slice xs ∷ []) = map value xs
expand vals = vals

abbrev max_where_in_size : ℕ
max_where_in_size = 5000

-- The column that a query falls back on: the primary key's, or `id`.
unfoldable pub pk_column : Option Field → String
pk_column none = "id"
pk_column (some f) = f.column

abbrev pub is_sqlite : String → Bool
is_sqlite driver = str_eq driver "sqlite" || str_eq driver "sqlite3"

abbrev pub is_fts : Option Field → Bool
is_fts none = false
is_fts (some f) = f.fts

module _ {ℓ} {A : Type ℓ} where
  unfoldable pub fail : OrmError → Query A → Query A
  fail e q = record q { err = some e }

  unfoldable pub add_where : String → Bool → List (Arg A) → Query A → Query A
  add_where cond or args q = record q {
    wheres = q.wheres ++ record { cond = cond; is_or = or } ∷ [];
    args = q.args ++ args;
  }

  unfoldable pub select : List String → Query A → Query A
  unfolding fail first_invalid
  select cols q = elim (first_invalid cols) [
    | some c ↦ fail (select_ident c) q
    | none ↦ record q { cols = cols }
  ]

  unfoldable pub set_distinct : Query A → Query A
  set_distinct q = record q { distinct = true }

  unfoldable pub add_join : String → String → String → Query A → Query A
  unfolding fail
  add_join kind table on q =
      if not (valid_ident table)
      then fail (join_table table) q
      else if not (valid_join_on on)
      then fail (join_on on) q
      else record q { joins = q.joins ++ (kind <> (" JOIN " <> (table <> (" ON " <> on)))) ∷ [] }

  -- Where, WhereSQL
  unfoldable pub where_sql : String → List (Arg A) → Query A → Query A
  unfolding add_where
  where_sql cond args q = add_where cond false args q

  -- OrWhere, OrWhereSQL
  unfoldable pub or_where_sql : String → List (Arg A) → Query A → Query A
  unfolding add_where
  or_where_sql cond args q = add_where cond true args q

  -- whereOp, the base of WhereEq, WhereNe, WhereGt, WhereGte, WhereLt, WhereLte, WhereLike and
  -- their OR variants
  unfoldable pub where_op : String → String → Arg A → Bool → Query A → Query A
  unfolding fail add_where
  where_op col op val or q =
      if valid_ident col
      then add_where (col <> (" " <> (op <> " ?"))) or (val ∷ []) q
      else fail (where_ident col) q

  unfoldable pub where_null : String → Query A → Query A
  unfolding fail add_where
  where_null col q =
      if valid_ident col
      then add_where (col <> " IS NULL") false [] q
      else fail (OrmError.where_null col) q

  unfoldable pub where_not_null : String → Query A → Query A
  unfolding fail add_where
  where_not_null col q =
      if valid_ident col
      then add_where (col <> " IS NOT NULL") false [] q
      else fail (OrmError.where_not_null col) q

  -- The part of WhereIn behind the expansion of its values.
  where_in_list : String → List (Arg A) → Query A → Query A
  unfolding fail add_where more_marks
  where_in_list col [] q = record q {
    wheres = q.wheres ++ record { cond = "1 = 0"; is_or = false } ∷ [];
  }
  where_in_list col (v ∷ vs) q =
      if ltb max_where_in_size (length (v ∷ vs))
      then fail (where_in_size (length (v ∷ vs))) q
      else add_where (col <> (" IN (" <> ("?" <> (more_marks vs <> ")")))) false (v ∷ vs) q

  unfoldable pub where_in : String → List (Arg A) → Query A → Query A
  unfolding fail where_in_list expand
  where_in col vals q =
      if valid_ident col then where_in_list col (expand vals) q else fail (where_in_ident col) q

  -- The clauses of Search for a driver with a ranking expression, which has a placeholder.
  unfoldable pub search_ranked : String → String → String → Query A → Query A
  search_ranked cond order term q = record (add_where cond false (text term ∷ []) q) {
    order_by = order ∷ [];
    rank_args = text term ∷ [];
  }

  unfoldable pub search_pg : String → String → Query A → Query A
  search_pg col term q =
      let vec = "to_tsvector('portuguese', " <> (col <> ")") in
      search_ranked (vec <> " @@ plainto_tsquery('portuguese', ?)")
        ("ts_rank(" <> (vec <> ", plainto_tsquery('portuguese', ?)) DESC")) term q

  unfoldable pub search_mysql : String → String → Query A → Query A
  search_mysql col term q =
      let found = "MATCH(" <> (col <> ") AGAINST(? IN NATURAL LANGUAGE MODE)") in
      search_ranked found (found <> " DESC") term q

  has_error : Query A → Bool
  has_error q = elim q.err [ none ↦ false | some _ ↦ true ]

  -- The condition and the order on the shadow table of SQLite.
  unfoldable pub search_shadow : String → String → Query A → Query A
  search_shadow shadow term q = record (add_where (shadow <> " MATCH ?") false (text term ∷ []) q) {
    order_by = (shadow <> ".rank") ∷ [];
  }

  unfoldable pub search_sqlite : String → String → Query A → Query A
  unfolding has_error
  search_sqlite col term q =
      let shadow = q.meta.table <> ("_" <> (col <> "_fts")) in
      let on = shadow <> (".rowid = " <> (q.meta.table <> ("." <> pk_column q.meta.pk_field))) in
      let joined = add_join "INNER" shadow on q in
      if has_error joined then joined else search_shadow shadow term joined

  unfoldable pub search : String → String → Query A → Query A
  search col term q =
      if not (valid_ident col)
      then fail (search_ident col) q
      else if not (is_fts (lookup col q.meta.col_to_field))
      then fail (search_column col) q
      else if is_pg q.driver
      then search_pg col term q
      else if str_eq q.driver "mysql"
      then search_mysql col term q
      else if is_sqlite q.driver
      then search_sqlite col term q
      else fail (search_driver q.driver) q

  unfoldable pub add_order_by : List String → Query A → Query A
  unfolding fail first_invalid
  add_order_by cols q = elim (first_invalid cols) [
    | some c ↦ fail (order_by_ident c) q
    | none ↦ record q { order_by = q.order_by ++ cols }
  ]

  unfoldable pub set_limit : ℕ → Query A → Query A
  set_limit n q = record q { limit = n }

  unfoldable pub set_offset : ℕ → Query A → Query A
  set_offset n q = record q { offset = n }
