-- ===== src/Orm/Tests/Pages.antt =====
-- Pagination on a database that answers every page SELECT of one query from a list of rows.
use framework_kyrux.Prelude.{
  ℕ, ◌+◌, ◌<◌, ◌≤◌, ◌≡◌, ◌≢◌, ◌^◌, refl, ◌⊎◌, ◌↔◌, true, false, arith, false, List, [], ◌∷◌, none,
  some, length, take, drop, Result, ok,
}
use framework_kyrux.Orm.Marks.{marks, count_marks}
use framework_kyrux.Orm.Model.{Arg, number, OrmError}
use framework_kyrux.Orm.Query.{Query, from_db}
use framework_kyrux.Orm.Query.Methods.{chain, searches}
use framework_kyrux.Orm.Query.Chains.{chain-IsBalanced, from_db-IsBalanced}
use framework_kyrux.Orm.Select.{build_select, build_select_page, select_text, limit_of}
use framework_kyrux.Orm.Statements.{count_statement, count_text, Statement}
use framework_kyrux.Orm.Ident.{valid_ident}
use framework_kyrux.Prelude.{is_space}
use framework_kyrux.Orm.Paging.{
  Page, max_page_size, max_int, offset_of, clamp_paging, paginate, paginate_no_count, after_query,
}
use framework_kyrux.Orm.Rewrite.{rewrite_placeholders}
use framework_kyrux.Orm.Paging.Counted.{paginate_rows}
use framework_kyrux.Orm.Paging.Bounds.{IsClamped, clamp_paging_bounds}
use framework_kyrux.Orm.Paging.Pages.{Answers, paginate_no_count_rows, paginate_no_count_one}
use framework_kyrux.Orm.Paging.Keyset.{after_query-marks}
use framework_kyrux.Orm.Tests.{users, users-IsPlainMeta}

abbrev size_one : ℕ
size_one = 1

abbrev size_two : ℕ
size_two = 2

size_two-several : size_two ≢ 1
size_two-several e = omega (arith, e)

clamp_paging_bounds_example :
    (1 ≤ (clamp_paging 7 1).1)
    × ((clamp_paging 7 1).1 ≤ max_page_size)
    × ((1 < 1) ⊎ (max_page_size < 1) ⊎ ((clamp_paging 7 1).1 ≡ 1))
    × (((size_one ≢ 1) × IsClamped 7 (clamp_paging 7 1).0 (clamp_paging 7 1).1)
        ⊎ ((size_one ≡ 1)
            × ((clamp_paging 7 1).0 ≡ 2 ^ 63)
            × (offset_of (clamp_paging 7 1).0 1 ≡ max_int)))
clamp_paging_bounds_example = clamp_paging_bounds 7 size_one (omega arith)

page_wraps : clamp_paging 7 1 ≡ (2 ^ 63, 1)
unfolding clamp_paging
page_wraps = refl

page_kept : clamp_paging 7 20 ≡ (7, 20)
unfolding clamp_paging
page_kept = refl

abbrev everyone : Query ℕ
everyone = from_db "mysql" "" users

abbrev rows : List ℕ
rows = 11 ∷ 12 ∷ 13 ∷ 14 ∷ 15 ∷ []

-- The limit and the offset are the last two arguments of a page SELECT.
abbrev fetch : Statement ℕ → Result OrmError (List ℕ)
fetch st = answer st.args
  where
    answer : List (Arg ℕ) → Result OrmError (List ℕ)
    answer (number limit ∷ number offset ∷ []) = ok (take limit (drop offset rows))
    answer _ = ok []

answered : Answers fetch everyone rows
unfolding build_select_page from_db
answered limit offset = refl

paginate_no_count_rows_example :
    (r : Page ℕ) × (paginate_no_count fetch 2 2 everyone ≡ ok r)
    × (r.items ≡ 13 ∷ 14 ∷ [])
    × ((r.has_next ≡ true) ↔ (4 < 5))
    × (r.has_prev ≡ true)
unfolding clamp_paging from_db
paginate_no_count_rows_example =
    paginate_no_count_rows fetch everyone rows 2 2 (omega arith) size_two-several refl answered

paginate_no_count_one_example :
    (r : Page ℕ) × (paginate_no_count fetch 2 1 everyone ≡ ok r)
    × (r.items ≡ [])
    × (r.has_next ≡ false)
    × (r.page ≡ 2 ^ 63)
unfolding from_db
paginate_no_count_one_example =
    paginate_no_count_one fetch everyone rows 2 (omega arith) (omega arith) refl answered

-- The count of all rows, whatever the statement.
abbrev count : Statement ℕ → Result OrmError ℕ
count st = ok 5

paginate_rows_example :
    (r : Page ℕ) × (paginate fetch count 2 2 everyone ≡ ok r)
    × (r.items ≡ 13 ∷ 14 ∷ [])
    × (r.total ≡ some 5)
    × ((r.has_next ≡ true) ↔ (4 < 5))
unfolding clamp_paging from_db count_statement
paginate_rows_example =
    paginate_rows fetch count everyone rows
      (record { sql = rewrite_placeholders "mysql" (count_text everyone); args = [] }) 2 2
      (omega arith) size_two-several (omega arith) refl refl refl answered

abbrev found_words : Query ℕ
found_words = chain (searches "secret" "words" ∷ []) (from_db "postgres" "" users)

id_valid : valid_ident "id" ≡ true
unfolding valid_ident is_space
id_valid = refl

after_query-marks_example :
    length (build_select 11 (after_query "id" none false found_words)).1
    ≡ marks (
        select_text
          (limit_of 11 (after_query "id" none false found_words))
          (after_query "id" none false found_words))
      + length found_words.rank_args
unfolding count_marks
after_query-marks_example = after_query-marks "id" none false 11 found_words id_valid (
    chain-IsBalanced (searches "secret" "words" ∷ []) _ (tt, tt)
      (from_db-IsBalanced "postgres" "" users refl users-IsPlainMeta))
