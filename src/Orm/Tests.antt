-- ===== src/Orm/Tests.antt =====
-- Runs of the query builder on a small model, and the theorems at these queries.
pub mod Updates
pub mod Pages
use framework_kyrux.Prelude.{
  ℕ, ◌+◌, ◌-◌, ◌*◌, ◌<◌, ◌≤◌, ◌≡◌, refl, ◌⊎◌, ◌↔◌, ◌≢◌, inl, inr, String, Bool, true, false, List,
  [], ◌∷◌, ◌++◌, Option, none, some, All, length, take, drop, ltb, Result, ok, err, dec_text, ◌<>◌,
  codes, is_space, join, join_rest, str_eq, arith,
}
use framework_kyrux.Prelude.Dict.{Dict, lookup}
use framework_kyrux.Orm.Marks.{marks, count_marks}
use framework_kyrux.Orm.Ident.{valid_ident}
use framework_kyrux.Orm.Rewrite.{is_pg, itoa, split_marks, weave, rewrite_placeholders}
use framework_kyrux.Orm.Model.{Field, ModelMeta, Arg, value, text, number, slice, OrmError}
use framework_kyrux.Orm.Query.{
  Query, WhereClause, from_db, select, add_order_by, where_op, where_in, search, pk_column,
  where_sql,
}
use framework_kyrux.Orm.Query.Methods.{
  eq, gt, Method, selects, orders, joins_left, filters_sql, filters, filters_or, filters_in,
  searches, limits, offsets, apply, chain,
}
use framework_kyrux.Orm.Query.Balance.{IsPlainMeta, IsBalanced}
use framework_kyrux.Orm.Select.{
  build_select, build_select_page, select_text, select_args, page_text, limit_of, qualified_table,
  where_text,
}
use framework_kyrux.Orm.Last.{reversed, reverse_term, before_suffix, same_upper, upper_letter}
use framework_kyrux.Prelude.Texts.{trim, trim_start, trim_end, to_upper_ascii}
use framework_kyrux.Orm.Query.Chains.{chain-IsBalanced, from_db-IsBalanced}
use framework_kyrux.Orm.Rewrite.Numbering.{IsSplit, rewrite_placeholders_numbered}
use framework_kyrux.Orm.Statements.{
  Statement, rewritten, exists_text, count_text, delete_text, aggregate_text, aggregate_statement,
  delete_statement, update_statement, update_text, set_clauses, now_clauses, sort_texts,
}
use framework_kyrux.Orm.Statements.Safety.{statements_balanced, delete_statement_lem, delete_where}
use framework_kyrux.Orm.Select.Balance.{chain_select_balanced}

abbrev pub id_field : Field
id_field = record {
  name = "ID";
  column = "id";
  is_pk = true;
  is_hash = false;
  is_encrypt = false;
  is_auto_now = false;
  is_auto_now_add = false;
  is_nano_id = false;
  unique = true;
  fts = false;
  is_image = false;
  go_index = 0;
  size = 0;
  default_sql = "";
  fk = "";
  fk_label = "";
}

abbrev pub secret_field : Field
secret_field = record id_field {
  name = "Secret";
  column = "secret";
  is_pk = false;
  is_hash = true;
  fts = true;
}

abbrev pub users : ModelMeta
users = record {
  table = "users";
  fields = id_field ∷ secret_field ∷ [];
  pk_field = some id_field;
  col_to_field = ("id", id_field) ∷ ("secret", secret_field) ∷ [];
}

abbrev calls : List (Method ℕ)
calls =
    filters gt "id" (value 3)
    ∷ filters_sql "a = ? AND b < ?" (value 1 ∷ value 2 ∷ [])
    ∷ filters_in "id" (slice (4 ∷ 5 ∷ []) ∷ [])
    ∷ orders ("id DESC" ∷ [])
    ∷ limits 7
    ∷ []

users-IsPlainMeta : IsPlainMeta users
unfolding count_marks pk_column
users-IsPlainMeta = record { table_plain = refl; pk_plain = refl }

chain_select_balanced_example :
    (marks (
        select_text
          (limit_of 0 (chain calls (from_db "postgres" "" users)))
          (chain calls (from_db "postgres" "" users)))
      ≡ length (build_select 0 (chain calls (from_db "postgres" "" users))).1)
    × (marks (page_text (chain calls (from_db "postgres" "" users)))
        ≡ length (build_select_page 10 20 (chain calls (from_db "postgres" "" users))).1)
unfolding count_marks
chain_select_balanced_example =
    chain_select_balanced calls "postgres" "" users 0 10 20 (tt, (refl, (tt, (tt, (tt, tt))))) refl
      users-IsPlainMeta

abbrev found : Query ℕ
found = chain calls (from_db "postgres" "" users)

found-IsBalanced : IsBalanced found
unfolding count_marks
found-IsBalanced =
    chain-IsBalanced calls _ (tt, (refl, (tt, (tt, (tt, tt)))))
      (from_db-IsBalanced "postgres" "" users refl users-IsPlainMeta)

ident_valid : valid_ident " users.name DESC" ≡ true
unfolding valid_ident is_space
ident_valid = refl

ident_invalid : valid_ident "name; DROP TABLE users" ≡ false
unfolding valid_ident is_space
ident_invalid = refl

name_reversed : reverse_term "name desc" ≡ "name ASC"
unfolding reverse_term before_suffix same_upper upper_letter trim trim_start trim_end is_space
    to_upper_ascii
name_reversed = refl

-- Only a space before the direction is seen, where OrderBy accepts any white space.
tab_kept : reverse_term "name\tDESC" ≡ "name\tDESC DESC"
unfolding reverse_term before_suffix same_upper upper_letter trim trim_start trim_end is_space
    to_upper_ascii
tab_kept = refl

rewritten_where : rewrite_placeholders "pgx" "a = ? AND b = ?" ≡ "a = $1 AND b = $2"
unfolding rewrite_placeholders
rewritten_where = refl

rewrite_placeholders_numbered_example :
    ((is_pg "pgx" ≡ true)
      × IsSplit "a = ? OR b = ?" (split_marks "a = ? OR b = ?")
      × (rewrite_placeholders "pgx" "a = ? OR b = ?" ≡ weave 1 (split_marks "a = ? OR b = ?"))
      × (marks (rewrite_placeholders "pgx" "a = ? OR b = ?") ≡ 0))
    ⊎ ((is_pg "pgx" ≡ false) × (rewrite_placeholders "pgx" "a = ? OR b = ?" ≡ "a = ? OR b = ?"))
rewrite_placeholders_numbered_example = rewrite_placeholders_numbered "pgx" "a = ? OR b = ?"

statements_balanced_example :
    (marks (exists_text found) ≡ length found.args)
    × (marks (count_text found) ≡ length found.args)
    × (marks (delete_text found) ≡ length found.args)
    × (marks (select_text 1 (reversed found)) ≡ length (select_args 1 (reversed found)))
statements_balanced_example = statements_balanced found found-IsBalanced

-- A query with one condition, which an UPDATE or a DELETE takes.
abbrev one_user : Query ℕ
one_user = record (from_db "mysql" "" users) {
  wheres = record { cond = "id = ?"; is_or = false } ∷ [];
  args = value 3 ∷ [];
}

one_user-IsBalanced : IsBalanced one_user
unfolding count_marks from_db pk_column
one_user-IsBalanced = record {
  conds = refl;
  orders = refl;
  cols_plain = refl;
  joins_plain = refl;
  schema_plain = refl;
  meta_plain = users-IsPlainMeta;
  unranked = λ _. refl;
}

sum_sent :
    aggregate_statement "SUM" "id" one_user
    ≡ ok (rewritten one_user (aggregate_text "SUM" "id" one_user) (value 3 ∷ []))
unfolding aggregate_statement valid_ident is_space from_db
sum_sent = refl

delete_sent :
    delete_statement one_user
    ≡ ok (record { sql = "DELETE FROM users WHERE (id = ?)"; args = value 3 ∷ [] })
unfolding delete_statement delete_text from_db rewrite_placeholders qualified_table where_text
delete_sent = refl

delete_statement_lem_example :
    ((st : Statement ℕ) × (w : WhereClause) × (ws : List WhereClause) × (rest : String)
      × (delete_statement one_user ≡ ok st)
      × (one_user.wheres ≡ w ∷ ws)
      × (one_user.joins ≡ [])
      × (st.sql ≡ rewrite_placeholders one_user.driver (delete_where one_user w rest))
      × (st.args ≡ one_user.args)
      × (marks (delete_where one_user w rest) ≡ length st.args))
    ⊎ ((e : OrmError) × (delete_statement one_user ≡ err e)
        × ((one_user.err ≡ some e) ⊎ (one_user.wheres ≡ []) ⊎ (one_user.joins ≢ [])))
delete_statement_lem_example = delete_statement_lem one_user one_user-IsBalanced
