-- ===== src/Orm/Paging/Pages.antt =====
-- What a page holds, for a database that answers a page SELECT with the rows from its offset on, as
-- many as its limit.
use framework_kyrux.Prelude.{
  ℕ, ◌+◌, ◌-◌, ◌*◌, ◌<◌, ◌≡◌, refl, sym, ◌∙◌, ◌≤◌, ◌≢◌, true, false, ◌^◌, List, [], ◌∷◌, none,
  arith, ltb, length, take, drop, length-drop, length-take, take-take, take_of_le, Result, ok, ◌↔◌,
  Bool-cases, inl, inr,
}
use framework_kyrux.Orm.Model.{OrmError}
use framework_kyrux.Orm.Query.{Query}
use framework_kyrux.Orm.Select.{build_select_page}
use framework_kyrux.Orm.Statements.{Statement}
use framework_kyrux.Orm.Paging.{
  max_int, int_ltb, clamp_paging, Page, statement_of, cut_page, paginate_no_count, fetched_page,
}
use framework_kyrux.Orm.Paging.Bounds.{clamp_paging-IsClamped, int_ltb-plain, page_of_one}

cut_page_lem {κ} :
    {R : Type κ} (s : ℕ) (rest : List R)
    → ((cut_page s (take (s + 1) rest)).0 ≡ take s rest)
      × (((cut_page s (take (s + 1) rest)).1 ≡ true) ↔ (s < length rest))
unfolding cut_page
cut_page_lem s rest = elim (Bool-cases (ltb s (length (take (s + 1) rest)))) [
  | inl e ↦ rw e (
    take-take s (s + 1) rest (omega arith),
    (λ _. ground (arith, length-take (s + 1) rest), λ _. refl),
  )
  | inr e ↦ rw e (
    sym (take_of_le s (take (s + 1) rest) (ground arith)) ∙ take-take s (s + 1) rest (omega arith),
    (λ f. cc, λ h. absurd (ground (arith, length-take (s + 1) rest))),
  )
]

module _ {ℓ κ} {A : Type ℓ} {R : Type κ} (fetch : Statement A → Result OrmError (List R)) where
  -- `rows` are all rows of the query: the database answers LIMIT and OFFSET by a part of them.
  abbrev pub Answers : Query A → List R → Type κ
  Answers q rows =
      (limit offset : ℕ)
      → fetch (statement_of (build_select_page limit offset q)) ≡ ok (take limit (drop offset rows))

  -- On a database that answers every page SELECT of a query by that page of some rows,
  -- PaginateNoCount on the query, if it has no recorded error, for a page up to the largest int and
  -- a size that is not 1, returns exactly the rows of the page asked for, as it is clamped, and says
  -- that a next page exists exactly when rows follow those of this page, and a previous one exactly
  -- when the page is not the first.
  pub paginate_no_count_rows :
      (q : Query A) (rows : List R) (page size : ℕ)
      → page ≤ max_int
      → size ≢ 1
      → q.err ≡ none
      → Answers q rows
      → let p = (clamp_paging page size).0 in
        let s = (clamp_paging page size).1 in
        (r : Page R) × (paginate_no_count fetch page size q ≡ ok r)
        × (r.items ≡ take s (drop ((p - 1) * s) rows))
        × ((r.has_next ≡ true) ↔ ((p - 1) * s + s < length rows))
        × (r.has_prev ≡ ltb 1 p)
  unfolding paginate_no_count
  paginate_no_count_rows q rows page size fits several no_err answers =
      let p = (clamp_paging page size).0 in
      let s = (clamp_paging page size).1 in
      let clamped = (clamp_paging-IsClamped page size fits several).0 in
      let offset = (p - 1) * s in
      let cut = cut_page s (take (s + 1) (drop offset rows)) in
      let (same, more) = cut_page_lem s (drop offset rows) in
      (
        record {
          items = cut.0;
          total = none;
          page = p;
          page_size = s;
          total_pages = 0;
          has_next = cut.1;
          has_prev = int_ltb 1 p;
        },
        rw (no_err, paginate_no_count)
            (rw (clamped.offset_same) (rw (answers (s + 1) offset, fetched_page) refl)),
        same,
        (
          λ e. ground (arith, more.0 e, length-drop offset rows),
          λ h. more.1 (ground (arith, length-drop offset rows)),
        ),
        int_ltb-plain 1 p (omega arith) clamped.fits,
      )

  pub drop_far : (n : ℕ) (rows : List R) → length rows ≤ n → drop n rows ≡ []
  drop_far n rows h = empty (drop n rows) (omega (arith, length-drop n rows, h))
    where
      empty : (xs : List R) → length xs ≡ 0 → xs ≡ []
      empty [] e = refl
      empty (x ∷ xs) e = absurd (omega (arith, e))

  -- On a database that answers every page SELECT of a query by that page of some rows, no more than
  -- the largest int, PaginateNoCount on the query, if it has no recorded error, with a size of 1
  -- returns no row and knows of no next page, whatever page up to the largest int is asked for, and
  -- it gives the least int as the number of the page.
  pub paginate_no_count_one :
      (q : Query A) (rows : List R) (page : ℕ)
      → page ≤ max_int
      → length rows ≤ max_int
      → q.err ≡ none
      → Answers q rows
      → (r : Page R) × (paginate_no_count fetch page 1 q ≡ ok r)
        × (r.items ≡ [])
        × (r.has_next ≡ false)
        × (r.page ≡ 2 ^ 63)
  unfolding paginate_no_count cut_page fetched_page
  paginate_no_count_one q rows page fits few no_err answers =
      let (least, one, far) = page_of_one page fits in
      let nothing : take 2 (drop max_int rows) ≡ [] = rw (drop_far max_int rows few) refl in
      (
        record {
          items = [];
          total = none;
          page = (clamp_paging page 1).0;
          page_size = (clamp_paging page 1).1;
          total_pages = 0;
          has_next = false;
          has_prev = int_ltb 1 (clamp_paging page 1).0;
        },
        rw (no_err, paginate_no_count)
            (rw (one, far) (rw (answers 2 max_int, nothing, fetched_page, cut_page) refl)),
        refl,
        refl,
        least,
      )
