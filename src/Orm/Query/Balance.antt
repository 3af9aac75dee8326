-- ===== src/Orm/Query/Balance.antt =====
-- Every method of the builder keeps the placeholders of the query in step with its arguments.
use framework_kyrux.Prelude.{
  ℕ, ◌+◌, ◌≡◌, refl, ◌∙◌, inl, ltb, inr, String, Bool, true, false, List, [], ◌∷◌, ◌++◌, none,
  arith, length, length-append, Bool-cases, Option-cases,
}
use framework_kyrux.Orm.Marks.{marks, count_marks, marks-append, marks_list, marks_list-append}
use framework_kyrux.Orm.Ident.{valid_ident, valid_join_on, marks-valid_ident, marks-valid_join_on}
use framework_kyrux.Orm.Model.{ModelMeta, Arg, OrmError}
use framework_kyrux.Orm.Query.{
  WhereClause, Query, first_invalid, more_marks, pk_column, is_sqlite, fail, add_where, select,
  add_order_by, add_join, where_op, where_null, where_not_null, where_in_list, where_in, expand,
  max_where_in_size,
}

-- The placeholders of the conditions.
abbrev pub marks_wheres : List WhereClause → ℕ
marks_wheres [] = 0
marks_wheres (w ∷ ws) = marks w.cond + marks_wheres ws

pub marks_wheres-append :
    (xs ys : List WhereClause) → marks_wheres (xs ++ ys) ≡ marks_wheres xs + marks_wheres ys
marks_wheres-append [] ys = omega arith
marks_wheres-append (x ∷ xs) ys = omega (arith, marks_wheres-append xs ys)

marks_list-first_invalid : (cs : List String) → first_invalid cs ≡ none → marks_list cs ≡ 0
unfolding first_invalid
marks_list-first_invalid [] h = refl
marks_list-first_invalid (c ∷ cs) h =
    ground (arith, marks-valid_ident c, marks_list-first_invalid cs)

-- The names of a model hold no placeholder.
pub record IsPlainMeta (meta : ModelMeta) : Type 0 where
  pub table_plain : marks meta.table ≡ 0
  pub pk_plain : marks (pk_column meta.pk_field) ≡ 0

module _ {ℓ} {A : Type ℓ} where
  -- As many arguments as placeholders, in the conditions and in the order, and none elsewhere.
  pub record IsBalanced (q : Query A) : Type 0 where
    pub conds : marks_wheres q.wheres ≡ length q.args
    pub orders : marks_list q.order_by ≡ length q.rank_args
    pub cols_plain : marks_list q.cols ≡ 0
    pub joins_plain : marks_list q.joins ≡ 0
    pub schema_plain : marks q.schema ≡ 0
    pub meta_plain : IsPlainMeta q.meta
    pub unranked : is_sqlite q.driver ≡ true → length q.rank_args ≡ 0

  pub fail-IsBalanced : (e : OrmError) (q : Query A) → IsBalanced q → IsBalanced (fail e q)
  unfolding fail
  fail-IsBalanced e q b = record {
    conds = b.conds;
    orders = b.orders;
    cols_plain = b.cols_plain;
    joins_plain = b.joins_plain;
    schema_plain = b.schema_plain;
    meta_plain = b.meta_plain;
    unranked = b.unranked;
  }

  pub add_where-IsBalanced :
      (cond : String) (or : Bool) (args : List (Arg A)) (q : Query A)
      → marks cond ≡ length args
      → IsBalanced q
      → IsBalanced (add_where cond or args q)
  unfolding add_where
  add_where-IsBalanced cond or args q h b = record {
    conds =
        rw (marks_wheres-append q.wheres (record { cond = cond; is_or = or } ∷ []))
          (omega (arith, length-append q.args args, b.conds));
    orders = b.orders;
    cols_plain = b.cols_plain;
    joins_plain = b.joins_plain;
    schema_plain = b.schema_plain;
    meta_plain = b.meta_plain;
    unranked = b.unranked;
  }

  pub select-IsBalanced :
      (cols : List String) (q : Query A) → IsBalanced q → IsBalanced (select cols q)
  unfolding select
  select-IsBalanced cols q b = elim (Option-cases (first_invalid cols)) [
    | inl e ↦
        rw (e, select)
          (record {
            conds = b.conds;
            orders = b.orders;
            cols_plain = marks_list-first_invalid cols e;
            joins_plain = b.joins_plain;
            schema_plain = b.schema_plain;
            meta_plain = b.meta_plain;
            unranked = b.unranked;
          })
    | inr (c, e) ↦ rw (e, select) (fail-IsBalanced _ q b)
  ]

  pub add_order_by-IsBalanced :
      (cols : List String) (q : Query A) → IsBalanced q → IsBalanced (add_order_by cols q)
  unfolding add_order_by
  add_order_by-IsBalanced cols q b = elim (Option-cases (first_invalid cols)) [
    | inl e ↦
        rw (e, add_order_by)
          (record {
            conds = b.conds;
            orders =
                marks_list-append q.order_by cols
                ∙ omega (arith, marks_list-first_invalid cols e, b.orders);
            cols_plain = b.cols_plain;
            joins_plain = b.joins_plain;
            schema_plain = b.schema_plain;
            meta_plain = b.meta_plain;
            unranked = b.unranked;
          })
    | inr (c, e) ↦ rw (e, add_order_by) (fail-IsBalanced _ q b)
  ]

  -- The new clause of a JOIN, where the two checks are passed.
  joined-IsBalanced :
      (clause : String) (q : Query A)
      → marks clause ≡ 0
      → IsBalanced q
      → IsBalanced (record q { joins = q.joins ++ clause ∷ [] })
  joined-IsBalanced clause q h b = record {
    conds = b.conds;
    orders = b.orders;
    cols_plain = b.cols_plain;
    joins_plain = marks_list-append q.joins (clause ∷ []) ∙ omega (arith, h, b.joins_plain);
    schema_plain = b.schema_plain;
    meta_plain = b.meta_plain;
    unranked = b.unranked;
  }

  pub add_join-IsBalanced :
      (kind table on : String) (q : Query A)
      → marks kind ≡ 0
      → IsBalanced q
      → IsBalanced (add_join kind table on q)
  unfolding add_join count_marks
  add_join-IsBalanced kind table on q h b = elim (Bool-cases (valid_ident table)) [
    | inr e ↦ rw e (fail-IsBalanced _ q b)
    | inl e ↦ elim (Bool-cases (valid_join_on on)) [
      | inr e' ↦ rw (e, e') (fail-IsBalanced _ q b)
      | inl e' ↦
          rw (e, e')
            (joined-IsBalanced _ q
              (simp marks-append
                (omega (arith, h, marks-valid_ident table e, marks-valid_join_on on e')))
              b)
    ]
  ]

  pub where_op-IsBalanced :
      (col op : String) (val : Arg A) (or : Bool) (q : Query A)
      → marks op ≡ 0
      → IsBalanced q
      → IsBalanced (where_op col op val or q)
  unfolding where_op count_marks
  where_op-IsBalanced col op val or q h b = elim (Bool-cases (valid_ident col)) [
    | inl e ↦ rw e (
        add_where-IsBalanced _ or (val ∷ []) q
          (simp marks-append (omega (arith, h, marks-valid_ident col e))) b)
    | inr e ↦ rw e (fail-IsBalanced _ q b)
  ]

  pub where_null-IsBalanced :
      (col : String) (q : Query A) → IsBalanced q → IsBalanced (where_null col q)
  unfolding where_null count_marks
  where_null-IsBalanced col q b = elim (Bool-cases (valid_ident col)) [
    | inl e ↦ rw e (
        add_where-IsBalanced _ false [] q
          (simp marks-append (omega (arith, marks-valid_ident col e))) b)
    | inr e ↦ rw e (fail-IsBalanced _ q b)
  ]

  pub where_not_null-IsBalanced :
      (col : String) (q : Query A) → IsBalanced q → IsBalanced (where_not_null col q)
  unfolding where_not_null count_marks
  where_not_null-IsBalanced col q b = elim (Bool-cases (valid_ident col)) [
    | inl e ↦ rw e (
        add_where-IsBalanced _ false [] q
          (simp marks-append (omega (arith, marks-valid_ident col e))) b)
    | inr e ↦ rw e (fail-IsBalanced _ q b)
  ]

  marks-more_marks : (vals : List (Arg A)) → marks (more_marks vals) ≡ length vals
  unfolding more_marks count_marks
  marks-more_marks [] = refl
  marks-more_marks (v ∷ vs) = simp (marks-append, marks-more_marks vs) (omega arith)

  where_in_list-IsBalanced :
      (col : String) (vals : List (Arg A)) (q : Query A)
      → marks col ≡ 0
      → IsBalanced q
      → IsBalanced (where_in_list col vals q)
  unfolding where_in_list count_marks
  where_in_list-IsBalanced col [] q h b = record {
    conds =
        rw (marks_wheres-append q.wheres (record { cond = "1 = 0"; is_or = false } ∷ []))
          (omega (arith, b.conds));
    orders = b.orders;
    cols_plain = b.cols_plain;
    joins_plain = b.joins_plain;
    schema_plain = b.schema_plain;
    meta_plain = b.meta_plain;
    unranked = b.unranked;
  }
  where_in_list-IsBalanced col (v ∷ vs) q h b =
      elim (Bool-cases (ltb max_where_in_size (length (v ∷ vs)))) [
        | inl e ↦ rw e (fail-IsBalanced _ q b)
        | inr e ↦ rw e (
            add_where-IsBalanced _ false (v ∷ vs) q
              (simp (marks-append, marks-more_marks vs) (omega (arith, h))) b)
      ]

  pub where_in-IsBalanced :
      (col : String) (vals : List (Arg A)) (q : Query A)
      → IsBalanced q
      → IsBalanced (where_in col vals q)
  unfolding where_in
  where_in-IsBalanced col vals q b = elim (Bool-cases (valid_ident col)) [
    | inl e ↦ rw e (where_in_list-IsBalanced col (expand vals) q (marks-valid_ident col e) b)
    | inr e ↦ rw e (fail-IsBalanced _ q b)
  ]
