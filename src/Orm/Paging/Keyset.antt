-- ===== src/Orm/Paging/Keyset.antt =====
-- The SELECT of PaginateAfter. It replaces the order of the query and keeps the arguments of the
-- ranking expression that stood there.
use framework_kyrux.Prelude.{
  ℕ, ◌+◌, ◌≡◌, refl, ap, String, Bool, true, false, [], ◌∷◌, Option, none, some, arith, length,
  length-append, ◌<>◌, if◌then◌else◌,
}
use framework_kyrux.Orm.Marks.{marks, count_marks, marks-append, marks_list}
use framework_kyrux.Orm.Ident.{valid_ident, marks-valid_ident}
use framework_kyrux.Orm.Model.{Arg}
use framework_kyrux.Orm.Query.{Query}
use framework_kyrux.Orm.Query.Balance.{IsBalanced, marks_wheres-append}
use framework_kyrux.Orm.Select.{limit_of, select_text, select_head, from_text, build_select}
use framework_kyrux.Orm.Select.Balance.{marks-select_text, length-select_args}
use framework_kyrux.Orm.Paging.{after_query}

marks-order :
    (col : String) (desc : Bool)
    → marks col ≡ 0
    → marks_list ((col <> (if desc then " DESC" else " ASC")) ∷ []) ≡ 0
unfolding count_marks
marks-order col true h = simp marks-append (omega (arith, h))
marks-order col false h = simp marks-append (omega (arith, h))

marks-cursor :
    (col : String) (desc : Bool)
    → marks col ≡ 0
    → marks (col <> (" " <> ((if desc then "<" else ">") <> " ?"))) ≡ 1
unfolding count_marks
marks-cursor col true h = simp marks-append (omega (arith, h))
marks-cursor col false h = simp marks-append (omega (arith, h))

module _ {ℓ} {A : Type ℓ} where
  -- The query of PaginateAfter, less the arguments that its order no longer takes.
  abbrev unranked_after : String → Option (Arg A) → Bool → Query A → Query A
  unranked_after col cursor desc q = record (after_query col cursor desc q) { rank_args = [] }

  unranked_after-IsBalanced :
      (col : String) (cursor : Option (Arg A)) (desc : Bool) (q : Query A)
      → marks col ≡ 0
      → IsBalanced q
      → IsBalanced (unranked_after col cursor desc q)
  unfolding after_query
  unranked_after-IsBalanced col none desc q h b = record {
    conds = b.conds;
    orders = marks-order col desc h;
    cols_plain = b.cols_plain;
    joins_plain = b.joins_plain;
    schema_plain = b.schema_plain;
    meta_plain = b.meta_plain;
    unranked = λ _. refl;
  }
  unranked_after-IsBalanced col (some c) desc q h b = record {
    conds =
        rw (marks_wheres-append q.wheres (record { cond = _; is_or = false } ∷ []))
          (omega (arith, length-append q.args (c ∷ []), b.conds, marks-cursor col desc h));
    orders = marks-order col desc h;
    cols_plain = b.cols_plain;
    joins_plain = b.joins_plain;
    schema_plain = b.schema_plain;
    meta_plain = b.meta_plain;
    unranked = λ _. refl;
  }

  rank_args-after_query :
      (col : String) (cursor : Option (Arg A)) (desc : Bool) (q : Query A)
      → (after_query col cursor desc q).rank_args ≡ q.rank_args
  unfolding after_query
  rank_args-after_query col none desc q = refl
  rank_args-after_query col (some c) desc q = refl

  -- For a checked column and a query that is in step, the SELECT of PaginateAfter has an argument
  -- for each of its placeholders, and as many more as the ranking expression of the query had: none
  -- for a query without a full-text search.
  pub after_query-marks :
      (col : String) (cursor : Option (Arg A)) (desc : Bool) (limit : ℕ) (q : Query A)
      → valid_ident col ≡ true
      → IsBalanced q
      → let r = after_query col cursor desc q in
        length (build_select limit r).1
        ≡ marks (select_text (limit_of limit r) r) + length q.rank_args
  unfolding build_select select_text select_head from_text limit_of
  after_query-marks col cursor desc limit q h b =
      let r = after_query col cursor desc q in
      let r' = unranked_after col cursor desc q in
      let lim = limit_of limit r in
      let b' = unranked_after-IsBalanced col cursor desc q (marks-valid_ident col h) b in
      omega (
        arith,
        length-select_args lim r,
        length-select_args lim r',
        marks-select_text lim r' b',
        ap length (rank_args-after_query col cursor desc q),
      )
