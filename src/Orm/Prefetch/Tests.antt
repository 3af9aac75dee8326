-- ===== src/Orm/Prefetch/Tests.antt =====
-- Prefetch on a small model.
use framework_kyrux.Prelude.{
  ◌≡◌, ◌≢◌, refl, String, List, [], ◌∷◌, map, Option, some, ok, dec_text, is_space, arith,
}
use framework_kyrux.Orm.Ident.{valid_ident}
use framework_kyrux.Orm.Model.{slice, value}
use framework_kyrux.Orm.Query.{Query, from_db, where_in}
use framework_kyrux.Orm.Rewrite.{rewrite_placeholders}
use framework_kyrux.Orm.Select.{
  build_select, select_args, select_text, limit_of, select_head, columns_text, from_text,
  qualified_table, join_texts, where_text, order_text,
}
use framework_kyrux.Orm.Statements.{Statement, all_statement}
use framework_kyrux.Orm.Tests.{users}
use framework_kyrux.Orm.Prefetch.{is_among, dedupe, group_of, prefetch}
use framework_kyrux.Orm.Prefetch.Groups.{rows_of, IsDistinct, prefetch_lem}

abbrev Row : Type 0
Row = String × String

abbrev key_of : Row → String
key_of r = r.0

abbrev rows : List Row
rows = ("2", "x") ∷ ("1", "y") ∷ ("2", "z") ∷ []

abbrev answer : Statement String → Option (List Row)
answer st = some rows

abbrev all_users : Query String
all_users = from_db "mysql" "" users

abbrev keys : List String
keys = "2" ∷ "1" ∷ "2" ∷ []

abbrev arg : String → String
arg k = k

abbrev asked : Statement String
asked = record {
  sql = "SELECT * FROM users WHERE (id IN (?, ?))";
  args = value "2" ∷ value "1" ∷ [];
}

built :
    all_statement (where_in "id" (slice (map arg (dedupe dec_text keys)) ∷ []) all_users) ≡ ok asked
unfolding all_statement where_in valid_ident is_space dedupe dec_text from_db build_select
    rewrite_placeholders select_args select_text limit_of select_head columns_text from_text
    qualified_table join_texts where_text order_text
built = refl

prefetch_lem_example :
    (groups : List (String × List Row)) × (prefetch dec_text arg answer all_users "id" keys key_of
      ≡ ok groups)
    × ((k : String) → group_of dec_text k groups ≡ rows_of dec_text key_of k rows)
    × IsDistinct dec_text (dedupe dec_text keys)
    × ((k : String) → is_among dec_text k (dedupe dec_text keys) ≡ is_among dec_text k keys)
prefetch_lem_example =
    prefetch_lem dec_text key_of arg answer all_users "id" keys asked rows some_key built refl
  where
    some_key : keys ≢ []
    some_key h = ground arith
