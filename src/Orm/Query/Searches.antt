-- ===== src/Orm/Query/Searches.antt =====
-- The full-text search keeps the placeholders in step with the arguments on every driver.
use framework_kyrux.Prelude.{
  ◌≡◌, refl, inl, inr, String, true, false, [], ◌∷◌, arith, length, ◌<>◌, Bool-cases, str_eq,
  eq_iff, dec_text, if◌then◌else◌,
}
use framework_kyrux.Prelude.Dict.{lookup}
use framework_kyrux.Orm.Marks.{marks, count_marks, marks-append}
use framework_kyrux.Orm.Ident.{valid_ident, marks-valid_ident}
use framework_kyrux.Orm.Rewrite.{is_pg}
use framework_kyrux.Orm.Model.{text, search_driver}
use framework_kyrux.Orm.Query.{
  Query, pk_column, is_sqlite, is_fts, has_error, add_where, add_join, search_ranked, search_pg,
  search_mysql, search_sqlite, search_shadow, search, fail,
}
use framework_kyrux.Orm.Query.Balance.{
  IsBalanced, fail-IsBalanced, add_where-IsBalanced, add_join-IsBalanced,
}

is_pg-is_sqlite : (d : String) → is_pg d ≡ true → is_sqlite d ≡ false
unfolding is_pg
is_pg-is_sqlite d h = elim (dec_text d "postgres") [
  | yes e ↦ rw e refl
  | no ne ↦ elim (dec_text d "pgx") [
    | yes e ↦ rw e refl
    | no ne' ↦ absurd (ground (arith, eq_iff d "postgres", eq_iff d "pgx"))
  ]
]

mysql-is_sqlite : (d : String) → str_eq d "mysql" ≡ true → is_sqlite d ≡ false
mysql-is_sqlite d h = rw ((eq_iff d "mysql").0 h) refl

module _ {ℓ} {A : Type ℓ} where
  -- A ranked search has one placeholder in its condition and one in its order.
  search_ranked-IsBalanced :
      (cond order term : String) (q : Query A)
      → marks cond ≡ 1
      → marks order ≡ 1
      → is_sqlite q.driver ≡ false
      → IsBalanced q
      → IsBalanced (search_ranked cond order term q)
  unfolding search_ranked add_where
  search_ranked-IsBalanced cond order term q h k d b =
      let b' = add_where-IsBalanced cond false (text term ∷ []) q h b in
      record {
        conds = b'.conds;
        orders = omega (arith, k);
        cols_plain = b.cols_plain;
        joins_plain = b.joins_plain;
        schema_plain = b.schema_plain;
        meta_plain = b.meta_plain;
        unranked = λ e. cc;
      }

  search_pg-IsBalanced :
      (col term : String) (q : Query A)
      → marks col ≡ 0
      → is_sqlite q.driver ≡ false
      → IsBalanced q
      → IsBalanced (search_pg col term q)
  unfolding search_pg count_marks
  search_pg-IsBalanced col term q h d b =
      search_ranked-IsBalanced _ _ term q (simp marks-append (omega (arith, h)))
        (simp marks-append (omega (arith, h))) d b

  search_mysql-IsBalanced :
      (col term : String) (q : Query A)
      → marks col ≡ 0
      → is_sqlite q.driver ≡ false
      → IsBalanced q
      → IsBalanced (search_mysql col term q)
  unfolding search_mysql count_marks
  search_mysql-IsBalanced col term q h d b =
      search_ranked-IsBalanced _ _ term q (simp marks-append (omega (arith, h)))
        (simp marks-append (omega (arith, h))) d b

  search_shadow-IsBalanced :
      (shadow term : String) (q : Query A)
      → marks shadow ≡ 0
      → length q.rank_args ≡ 0
      → IsBalanced q
      → IsBalanced (search_shadow shadow term q)
  unfolding search_shadow count_marks add_where
  search_shadow-IsBalanced shadow term q h r b =
      let b' =
        add_where-IsBalanced (shadow <> " MATCH ?") false (text term ∷ []) q
          (simp marks-append (omega (arith, h))) b in
      record {
        conds = b'.conds;
        orders = simp marks-append (omega (arith, h, r));
        cols_plain = b.cols_plain;
        joins_plain = b.joins_plain;
        schema_plain = b.schema_plain;
        meta_plain = b.meta_plain;
        unranked = b.unranked;
      }

  rank_args-add_join :
      (kind table on : String) (q : Query A) → (add_join kind table on q).rank_args ≡ q.rank_args
  unfolding add_join
  rank_args-add_join kind table on q = ground arith

  search_sqlite-IsBalanced :
      (col term : String) (q : Query A)
      → marks col ≡ 0
      → is_sqlite q.driver ≡ true
      → IsBalanced q
      → IsBalanced (search_sqlite col term q)
  unfolding search_sqlite count_marks
  search_sqlite-IsBalanced col term q h d b =
      let shadow = q.meta.table <> ("_" <> (col <> "_fts")) in
      let on = shadow <> (".rowid = " <> (q.meta.table <> ("." <> pk_column q.meta.pk_field))) in
      let joined = add_join-IsBalanced "INNER" shadow on q refl b in
      elim (Bool-cases (has_error (add_join "INNER" shadow on q))) [
        | inl e ↦ rw e joined
        | inr e ↦ rw e (
            search_shadow-IsBalanced shadow term _
              (simp marks-append (omega (arith, h, b.meta_plain.table_plain)))
              (rw (rank_args-add_join "INNER" shadow on q) (b.unranked d)) joined)
      ]

  -- The choice by the driver, once the column is known to be indexed.
  on_driver :
      (col term : String) (q : Query A)
      → marks col ≡ 0
      → IsBalanced q
      → IsBalanced (
          if is_pg q.driver
          then search_pg col term q
          else if str_eq q.driver "mysql"
          then search_mysql col term q
          else if is_sqlite q.driver
          then search_sqlite col term q
          else fail (search_driver q.driver) q)
  on_driver col term q h b = elim (Bool-cases (is_pg q.driver)) [
    | inl e ↦ rw e (search_pg-IsBalanced col term q h (is_pg-is_sqlite q.driver e) b)
    | inr e ↦ elim (Bool-cases (str_eq q.driver "mysql")) [
      | inl f ↦ rw (e, f) (search_mysql-IsBalanced col term q h (mysql-is_sqlite q.driver f) b)
      | inr f ↦ elim (Bool-cases (is_sqlite q.driver)) [
        | inl g ↦ rw (e, f, g) (search_sqlite-IsBalanced col term q h g b)
        | inr g ↦ rw (e, f, g) (fail-IsBalanced _ q b)
      ]
    ]
  ]

  pub search-IsBalanced :
      (col term : String) (q : Query A) → IsBalanced q → IsBalanced (search col term q)
  unfolding search
  search-IsBalanced col term q b = elim (Bool-cases (valid_ident col)) [
    | inr e ↦ rw e (fail-IsBalanced _ q b)
    | inl e ↦ elim (Bool-cases (is_fts (lookup col q.meta.col_to_field))) [
      | inr f ↦ rw (e, f) (fail-IsBalanced _ q b)
      | inl f ↦ rw (e, f) (on_driver col term q (marks-valid_ident col e) b)
    ]
  ]
