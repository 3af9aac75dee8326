-- ===== src/Orm/Paging.antt =====
-- Pagination (core/orm/query.go: clampPaging, Paginate, PaginateNoCount, PaginateAfter). The rows
-- that the database returns for a statement come from a parameter, `fetch`, and a row count from
-- `count`. A page number or size that is asked
-- for and lies below 1 is 0 here. Row counts are taken so small that the sums of pages_of
-- do not overflow.
pub mod Bounds
pub mod Pages
pub mod Counted
pub mod Keyset
use framework_kyrux.Prelude.{
  ℕ, ◌+◌, ◌-◌, ◌*◌, ◌/◌, ◌%◌, ◌^◌, String, Bool, true, false, List, [], ◌∷◌, ◌++◌, Option, none,
  some, ltb, length, take, if◌then◌else◌, ◌==◌, ◌<>◌, Result, ok, err,
}
use framework_kyrux.Prelude.Dict.{lookup}
use framework_kyrux.Orm.Ident.{valid_ident}
use framework_kyrux.Orm.Model.{Arg, OrmError, after_ident, after_column}
use framework_kyrux.Orm.Query.{Query}
use framework_kyrux.Orm.Select.{build_select, build_select_page}
use framework_kyrux.Orm.Statements.{Statement, count_statement}

abbrev pub max_page_size : ℕ
max_page_size = 1000

-- math.MaxInt
abbrev pub max_int : ℕ
max_int = 2 ^ 63 - 1

abbrev clamp_size : ℕ → ℕ
clamp_size size =
    let size' = if ltb size 1 then 10 else size in
    if ltb max_page_size size' then max_page_size else size'

-- An int of 64 bits, kept modulo 2^64: the numbers from 2^63 on are the negative ones.
abbrev pub int64 : ℕ → ℕ
int64 n = n % 2 ^ 64

-- The order of ints.
abbrev pub int_ltb : ℕ → ℕ → Bool
int_ltb a b = ltb (int64 (a + 2 ^ 63)) (int64 (b + 2 ^ 63))

-- The largest page wraps around for a size of 1.
abbrev clamp_page : ℕ → ℕ → ℕ
clamp_page page size =
    let page' = if ltb page 1 then 1 else page in
    let max_page = int64 (max_int / size + 1) in if int_ltb max_page page' then max_page else page'

unfoldable pub clamp_paging : ℕ → ℕ → ℕ × ℕ
clamp_paging page size = (clamp_page page (clamp_size size), clamp_size size)

-- (page - 1) * pageSize
abbrev pub offset_of : ℕ → ℕ → ℕ
offset_of page size = int64 (int64 (page + 2 ^ 64 - 1) * size)

-- Page; `total` is none where the source writes -1, that is, not known.
pub record Page {ℓ} (R : Type ℓ) : Type ℓ where
  pub items : List R
  pub total : Option ℕ
  pub page : ℕ
  pub page_size : ℕ
  pub total_pages : ℕ
  pub has_next : Bool
  pub has_prev : Bool

-- The number of pages that hold `total` rows, and 1 for none.
unfoldable pub pages_of : ℕ → ℕ → ℕ
pages_of total size = let n = (total + size - 1) / size in if n == 0 then 1 else n

abbrev pub statement_of {ℓ} : {A : Type ℓ} → String × List (Arg A) → Statement A
statement_of (sql, args) = record { sql = sql; args = args }

-- KeysetPage without the cursor, which is read from the last item.
pub record KeysetPage {ℓ} (R : Type ℓ) : Type ℓ where
  pub items : List R
  pub has_next : Bool

-- One row more than asked for tells that more follow.
unfoldable pub cut_page {ℓ} : {R : Type ℓ} → ℕ → List R → List R × Bool
cut_page size rows = if ltb size (length rows) then (take size rows, true) else (rows, false)

module _ {ℓ κ} {A : Type ℓ} {R : Type κ} (fetch : Statement A → Result OrmError (List R)) where
  fetched_page : ℕ → ℕ → Result OrmError (List R) → Result OrmError (Page R)
  unfolding cut_page
  fetched_page page size (err e) = err e
  fetched_page page size (ok rows) =
      let (items, more) = cut_page size rows in
      ok (record {
        items = items;
        total = none;
        page = page;
        page_size = size;
        total_pages = 0;
        has_next = more;
        has_prev = int_ltb 1 page;
      })

  unfoldable pub paginate_no_count : ℕ → ℕ → Query A → Result OrmError (Page R)
  unfolding fetched_page
  paginate_no_count page size q =
      let (page', size') = clamp_paging page size in
      let rows = fetch (statement_of (build_select_page (size' + 1) (offset_of page' size') q)) in
      elim q.err [ some e ↦ err e | none ↦ fetched_page page' size' rows ]

  counted_page : ℕ → ℕ → ℕ → Result OrmError (List R) → Result OrmError (Page R)
  counted_page page size total (err e) = err e
  counted_page page size total (ok rows) = ok (record {
    items = rows;
    total = some total;
    page = page;
    page_size = size;
    total_pages = pages_of total size;
    has_next = int_ltb page (pages_of total size);
    has_prev = int_ltb 1 page;
  })

  -- `count` is what the database answers to the statement of Count.
  unfoldable pub paginate :
      (Statement A → Result OrmError ℕ) → ℕ → ℕ → Query A → Result OrmError (Page R)
  unfolding counted_page
  paginate count page size q =
      let (page', size') = clamp_paging page size in
      let rows = fetch (statement_of (build_select_page size' (offset_of page' size') q)) in
      elim q.err [
        | some e ↦ err e
        | none ↦ elim (count_statement q) [
          | err e ↦ err e
          | ok st ↦ elim (count st) [
            | err e ↦ err e
            | ok total ↦ counted_page page' size' total rows
          ]
        ]
      ]

-- The limit of PaginateAfter.
unfoldable pub clamp_limit : ℕ → ℕ
clamp_limit limit = clamp_size limit

module _ {ℓ} {A : Type ℓ} where
  -- The query of PaginateAfter: the condition on the cursor, unless it is nil or zero (`none`), and
  -- the order by the column in place of the query's own.
  unfoldable pub after_query : String → Option (Arg A) → Bool → Query A → Query A
  after_query col cursor desc q =
      let ordered = record q { order_by = (col <> (if desc then " DESC" else " ASC")) ∷ [] } in
      let op = if desc then "<" else ">" in
      elim cursor [
        | none ↦ ordered
        | some c ↦ record ordered {
          wheres = q.wheres ++ record { cond = col <> (" " <> (op <> " ?")); is_or = false } ∷ [];
          args = q.args ++ c ∷ [];
        }
      ]

module _ {ℓ κ} {A : Type ℓ} {R : Type κ} (fetch : Statement A → Result OrmError (List R)) where
  keyset_page : ℕ → Result OrmError (List R) → Result OrmError (KeysetPage R)
  unfolding cut_page
  keyset_page limit (err e) = err e
  keyset_page limit (ok rows) =
      let (items, more) = cut_page limit rows in ok (record { items = items; has_next = more })

  unfoldable pub paginate_after :
      String → Option (Arg A) → Bool → ℕ → Query A → Result OrmError (KeysetPage R)
  unfolding keyset_page
  paginate_after col cursor desc limit q =
      let limit' = clamp_limit limit in
      let rows = fetch (statement_of (build_select (limit' + 1) (after_query col cursor desc q))) in
      elim q.err [
        | some e ↦ err e
        | none ↦
            if valid_ident col
            then (elim (lookup col q.meta.col_to_field) [
              | none ↦ err (after_column col)
              | some f ↦ keyset_page limit' rows
            ])
            else err (after_ident col)
      ]
