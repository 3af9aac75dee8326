-- ===== src/Orm/Statements/Update.antt =====
-- UPDATE: its placeholders, and what it stores in the columns that are hashed or encrypted.
use Prim.Native.Nat.{Ordering}
use Prim.Native.String.{compare}
use framework_kyrux.Prelude.{
  ◌+◌, ◌≡◌, refl, ◌≢◌, inl, inr, String, List, [], ◌∷◌, ◌++◌, Option, none, some, arith, length,
  length-append, Option-cases, All, Result, ok, err,
}
use framework_kyrux.Prelude.Dict.{Dict, lookup, keys, keys_found}
use framework_kyrux.Orm.Marks.{
  marks, count_marks, marks-append, marks-join, marks_list, marks_list-append,
}
use framework_kyrux.Orm.Model.{Field, ModelMeta, Arg, OrmError}
use framework_kyrux.Orm.Query.{Query}
use framework_kyrux.Orm.Rewrite.{rewrite_placeholders}
use framework_kyrux.Orm.Query.Balance.{IsBalanced}
use framework_kyrux.Orm.Select.Balance.{marks-where_text, marks-qualified_table}
use framework_kyrux.Orm.Statements.{
  Statement, unknown_column, insert_sorted, sort_texts, now_clauses, set_clauses, update_text,
  stored_at, stored_all, update_known, update_statement,
}
use framework_kyrux.Orm.Statements.Safety.{update_sent}

-- The columns of a model hold no placeholder.
pub record HasPlainColumns (meta : ModelMeta) : Type 0 where
  pub indexed : (c : String) → lookup c meta.col_to_field ≢ none → marks c ≡ 0
  pub listed : All (λ f. marks f.column ≡ 0) meta.fields

module _ {ℓ} (P : String → Type ℓ) where
  All-insert_sorted : (s : String) (ss : List String) → P s → All P ss → All P (insert_sorted s ss)
  unfolding insert_sorted
  All-insert_sorted s [] h hs = (h, tt)
  All-insert_sorted s (t ∷ ts) h hs = split (compare s t) (All-insert_sorted s ts h hs.1)
    where
      split :
          (o : Ordering)
          → All P (insert_sorted s ts)
          → All P (elim o [ Ordering.gt ↦ t ∷ insert_sorted s ts | _ ↦ s ∷ t ∷ ts ])
      split Ordering.lt rest = (h, hs)
      split Ordering.eq rest = (h, hs)
      split Ordering.gt rest = (hs.0, rest)

  pub All-sort_texts : (ss : List String) → All P ss → All P (sort_texts ss)
  unfolding sort_texts
  All-sort_texts [] h = tt
  All-sort_texts (s ∷ ss) h = All-insert_sorted s (sort_texts ss) h.0 (All-sort_texts ss h.1)

unknown_column-none :
    (cols : Dict Field) (ks : List String)
    → unknown_column cols ks ≡ none
    → All (λ k. lookup k cols ≢ none) ks
unfolding unknown_column
unknown_column-none cols [] h = tt
unknown_column-none cols (k ∷ ks) h = elim (Option-cases (lookup k cols)) [
  | inl e ↦ absurd (ground arith)
  | inr (f, e) ↦ (ground arith, unknown_column-none cols ks (rw (e, unknown_column) at h))
]

All-map :
    {P Q : String → Type 0} → ((k : String) → P k → Q k) → (ks : List String) → All P ks → All Q ks
All-map f [] h = tt
All-map f (k ∷ ks) h = (f k h.0, All-map f ks h.1)

marks-set_clauses :
    (ks : List String) → All (λ k. marks k ≡ 0) ks → marks_list (set_clauses ks) ≡ length ks
unfolding count_marks
marks-set_clauses [] h = refl
marks-set_clauses (k ∷ ks) h = simp marks-append (omega (arith, h.0, marks-set_clauses ks h.1))

module _ {ℓ} {A : Type ℓ} where
  marks-now_clauses :
      (values : Dict (Arg A)) (fs : List Field)
      → All (λ f. marks f.column ≡ 0) fs
      → marks_list (now_clauses values fs) ≡ 0
  unfolding now_clauses count_marks
  marks-now_clauses values [] h = refl
  marks-now_clauses values (f ∷ fs) h =
      ground (arith, marks-append f.column " = CURRENT_TIMESTAMP", marks-now_clauses values fs h.1)

  marks-update_text :
      (clauses : List String) (q : Query A)
      → IsBalanced q
      → marks (update_text clauses q) ≡ marks_list clauses + length q.args
  unfolding update_text count_marks
  marks-update_text clauses q b =
      simp (marks-append, marks-where_text, marks-join)
        (omega (
          arith,
          marks-qualified_table q.schema q.meta.table b.schema_plain b.meta_plain.table_plain,
          b.conds,
        ))

  module _ (hash encrypt : String → Option String) where
    pub stored_all_cons :
        (cols : Dict Field) (values : Dict (Arg A)) (k : String) (ks : List String)
        (vs : List (Arg A))
        → stored_all hash encrypt cols values (k ∷ ks) ≡ ok vs
        → (v ws : List (Arg A)) × (stored_at hash encrypt (lookup k cols) (lookup k values) ≡ ok v)
          × (stored_all hash encrypt cols values ks ≡ ok ws)
          × (vs ≡ v ++ ws)
    unfolding stored_all
    stored_all_cons cols values k ks vs e =
        split (stored_at hash encrypt (lookup k cols) (lookup k values)) refl
          (stored_all hash encrypt cols values ks) refl
      where
        split :
            (r : Result OrmError (List (Arg A)))
            → stored_at hash encrypt (lookup k cols) (lookup k values) ≡ r
            → (rest : Result OrmError (List (Arg A)))
            → stored_all hash encrypt cols values ks ≡ rest
            → (v ws : List (Arg A)) × (stored_at hash encrypt (lookup k cols) (lookup k values)
                ≡ ok v)
              × (stored_all hash encrypt cols values ks ≡ ok ws)
              × (vs ≡ v ++ ws)
        split (err c) h rest k' = absurd (ground arith)
        split (ok v) h (err c) k' = absurd (ground arith)
        split (ok v) h (ok ws) k' = (v, ws, h, k', ground arith)

    length-stored_at :
        (f : Option Field) (o : Option (Arg A)) (v : List (Arg A))
        → o ≢ none
        → stored_at hash encrypt f o ≡ ok v
        → length v ≡ 1
    unfolding stored_at
    length-stored_at f none v h e = absurd (h refl)
    length-stored_at none (some val) v h e = ground arith
    length-stored_at (some f) (some val) v h e = ground arith

    length-stored_all :
        (cols : Dict Field) (values : Dict (Arg A)) (ks : List String) (vs : List (Arg A))
        → All (λ k. lookup k values ≢ none) ks
        → stored_all hash encrypt cols values ks ≡ ok vs
        → length vs ≡ length ks
    unfolding stored_all
    length-stored_all cols values [] vs h e = ground arith
    length-stored_all cols values (k ∷ ks) vs h e =
        let (v, ws, at, rest, same) = stored_all_cons cols values k ks vs e in
        rw same (
          omega (
            arith,
            length-append v ws,
            length-stored_at _ _ v h.0 at,
            length-stored_all cols values ks ws h.1 rest,
          ))

    -- What an UPDATE of known columns sends.
    pub update_known_sent :
        (ks : List String) (values : Dict (Arg A)) (q : Query A) (st : Statement A)
        → update_known hash encrypt ks values q ≡ ok st
        → (vs : List (Arg A)) × (stored_all hash encrypt q.meta.col_to_field values ks ≡ ok vs)
          × (st.args ≡ vs ++ q.args)
          × (st.sql
              ≡ rewrite_placeholders q.driver
                  (update_text (set_clauses ks ++ now_clauses values q.meta.fields) q))
    unfolding update_known
    update_known_sent ks values q st e =
        split (stored_all hash encrypt q.meta.col_to_field values ks) refl
      where
        Sent : Type ℓ
        Sent =
            (vs : List (Arg A)) × (stored_all hash encrypt q.meta.col_to_field values ks ≡ ok vs)
            × (st.args ≡ vs ++ q.args)
            × (st.sql
                ≡ rewrite_placeholders q.driver
                    (update_text (set_clauses ks ++ now_clauses values q.meta.fields) q))

        split :
            (r : Result OrmError (List (Arg A)))
            → stored_all hash encrypt q.meta.col_to_field values ks ≡ r
            → Sent
        split (err c) h = absurd (ground arith)
        split (ok vs) h = (vs, h, ground arith, ground arith)

    -- An UPDATE that is sent has as many placeholders, before their numbering, as arguments, if the
    -- query is in step and the model's columns hold no placeholder.
    pub update_balanced :
        (values : Dict (Arg A)) (q : Query A) (st : Statement A)
        → IsBalanced q
        → HasPlainColumns q.meta
        → update_statement hash encrypt values q ≡ ok st
        → (sql : String) × (st.sql ≡ rewrite_placeholders q.driver sql)
          × (marks sql ≡ length st.args)
    update_balanced values q st b p e =
        let ks = sort_texts (keys values) in
        let (no_err, some_where, no_join, known, sent) = update_sent hash encrypt values q st e in
        let (vs, stored_ok, same, text) = update_known_sent ks values q st sent in
        let found =
          All-sort_texts (λ k. lookup k values ≢ none) (keys values) (keys_found values) in
        let plain =
          All-sort_texts (λ k. marks k ≡ 0) (keys values)
            (All-map p.indexed (keys values)
              (unknown_column-none q.meta.col_to_field (keys values) known)) in
        (
          update_text (set_clauses ks ++ now_clauses values q.meta.fields) q,
          text,
          rw same (
              rw (marks-update_text (set_clauses ks ++ now_clauses values q.meta.fields) q b) (
                rw (marks_list-append (set_clauses ks) (now_clauses values q.meta.fields)) (
                  omega (
                    arith,
                    marks-set_clauses ks plain,
                    marks-now_clauses values q.meta.fields p.listed,
                    length-append vs q.args,
                    length-stored_all q.meta.col_to_field values ks vs found stored_ok,
                  )))),
        )
