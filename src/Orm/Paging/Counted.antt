-- ===== src/Orm/Paging/Counted.antt =====
-- Paginate on a database that counts the rows and answers every page from them.
use framework_kyrux.Prelude.{
  ℕ, ◌+◌, ◌-◌, ◌*◌, ◌<◌, ◌≤◌, ◌≡◌, ◌≢◌, ◌^◌, [], refl, ◌↔◌, inl, inr, true, false, List, none, some,
  arith, ltb, length, take, drop, Result, ok, Bool-cases,
}
use native.Mathlib.Nat.{mul-le-mul_left, mul-le-mul_right}
use framework_kyrux.Orm.Model.{OrmError}
use framework_kyrux.Orm.Query.{Query}
use framework_kyrux.Orm.Statements.{Statement, count_statement}
use framework_kyrux.Orm.Paging.{
  max_int, max_page_size, int_ltb, clamp_paging, Page, pages_of, counted_page, paginate,
}
use framework_kyrux.Orm.Paging.Bounds.{
  pages_of_bounds, clamp_paging-IsClamped, int_ltb-plain, page_of_one,
}
use framework_kyrux.Orm.Paging.Pages.{Answers, drop_far}

-- The least int is before every number that is not negative.
least_before : (n : ℕ) → n ≤ max_int → int_ltb (2 ^ 63) n ≡ true
least_before n h = ground arith

pages_le : (total size : ℕ) → 1 ≤ size → total < max_int → pages_of total size ≤ max_int
pages_le total size h few =
    let (least, holds, tight) = pages_of_bounds total size h in
    let n = pages_of total size in
    elim tight [
      | inl one ↦ omega (arith, one)
      | inr less ↦ omega (arith, less, few, mul-le-mul_left (n - 1) h)
    ]

page_le : (page n : ℕ) → ltb page n ≡ true → page ≤ n - 1
page_le page n h = ground arith

n_le : (page n : ℕ) → ltb page n ≡ false → n ≤ page
n_le page n h = ground arith

-- A page is before the last one exactly when rows follow those of it.
page_before_last :
    (page total size : ℕ)
    → 1 ≤ size
    → 1 ≤ page
    → (ltb page (pages_of total size) ≡ true) ↔ (page * size < total)
page_before_last page total size h first =
    let (least, holds, tight) = pages_of_bounds total size h in
    let n = pages_of total size in
    (
      λ before. elim tight [
        | inl one ↦ absurd (ground arith)
        | inr less ↦ omega (arith, less, mul-le-mul_right size (page_le page n before))
      ],
      λ more. elim (Bool-cases (ltb page n)) [
        | inl e ↦ e
        | inr e ↦ absurd (omega (arith, holds, more, mul-le-mul_right size (n_le page n e)))
      ],
    )

module _ {ℓ κ} {A : Type ℓ} {R : Type κ} (fetch : Statement A → Result OrmError (List R))
    (count : Statement A → Result OrmError ℕ) where
  -- On a database that counts the rows of a query and answers every page SELECT of it by that page
  -- of the rows, so few that counting the pages does not overflow, Paginate on the query, if it
  -- has no recorded error, for a page up to the largest int and a size that is not 1, returns the
  -- rows of the page asked for, as it is clamped, with the number of all rows, and says that a
  -- next page exists exactly when rows follow those of this page.
  pub paginate_rows :
      (q : Query A) (rows : List R) (st : Statement A) (page size : ℕ)
      → page ≤ max_int
      → size ≢ 1
      → length rows + max_page_size ≤ max_int
      → q.err ≡ none
      → count_statement q ≡ ok st
      → count st ≡ ok (length rows)
      → Answers fetch q rows
      → let p = (clamp_paging page size).0 in
        let s = (clamp_paging page size).1 in
        (r : Page R) × (paginate fetch count page size q ≡ ok r)
        × (r.items ≡ take s (drop ((p - 1) * s) rows))
        × (r.total ≡ some (length rows))
        × ((r.has_next ≡ true) ↔ (p * s < length rows))
  unfolding paginate
  paginate_rows q rows st page size fits several few no_err counts total answers =
      let p = (clamp_paging page size).0 in
      let s = (clamp_paging page size).1 in
      let (clamped, two) = clamp_paging-IsClamped page size fits several in
      let low : 1 ≤ s = omega (arith, two) in
      (
        record {
          items = take s (drop ((p - 1) * s) rows);
          total = some (length rows);
          page = p;
          page_size = s;
          total_pages = pages_of (length rows) s;
          has_next = int_ltb p (pages_of (length rows) s);
          has_prev = int_ltb 1 p;
        },
        rw (no_err, paginate)
            (rw (counts, total, clamped.offset_same)
              (rw (answers s ((p - 1) * s), counted_page) refl)),
        refl,
        refl,
        rw
            (int_ltb-plain p (pages_of (length rows) s) clamped.fits
              (pages_le (length rows) s low (omega (arith, few))))
            (page_before_last p (length rows) s low clamped.first),
      )

  -- On such a database, Paginate with a size of 1 returns no row, whatever page up to the largest
  -- int is asked for, although it says that a next page exists.
  pub paginate_one :
      (q : Query A) (rows : List R) (st : Statement A) (page : ℕ)
      → page ≤ max_int
      → length rows + max_page_size ≤ max_int
      → q.err ≡ none
      → count_statement q ≡ ok st
      → count st ≡ ok (length rows)
      → Answers fetch q rows
      → (r : Page R) × (paginate fetch count page 1 q ≡ ok r)
        × (r.items ≡ [])
        × (r.total ≡ some (length rows))
        × (r.has_next ≡ true)
  unfolding paginate
  paginate_one q rows st page fits few no_err counts total answers =
      let (least, one, far) = page_of_one page fits in
      let nothing : take 1 (drop max_int rows) ≡ [] =
        rw (drop_far fetch max_int rows (omega (arith, few))) refl in
      let pages : pages_of (length rows) 1 ≤ max_int =
        pages_le (length rows) 1 (omega arith) (omega (arith, few)) in
      (
        record {
          items = [];
          total = some (length rows);
          page = (clamp_paging page 1).0;
          page_size = (clamp_paging page 1).1;
          total_pages = pages_of (length rows) (clamp_paging page 1).1;
          has_next =
              int_ltb (clamp_paging page 1).0 (pages_of (length rows) (clamp_paging page 1).1);
          has_prev = int_ltb 1 (clamp_paging page 1).0;
        },
        rw (no_err, paginate)
            (rw (counts, total, one, far) (rw (answers 1 max_int, nothing, counted_page) refl)),
        refl,
        refl,
        rw (least, one) (least_before (pages_of (length rows) 1) pages),
      )
