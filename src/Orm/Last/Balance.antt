-- ===== src/Orm/Last/Balance.antt =====
-- The reversed order has the placeholders of the order.
use Prim.Native.Char.{code}
use framework_kyrux.Prelude.{
  ℕ, ◌≡◌, refl, sym, ap, ◌∙◌, inl, inr, String, true, List, [], ◌∷◌, Option, none, some, arith,
  Bool-cases, Option-cases, ◌==◌,
}
use framework_kyrux.Prelude.Texts.{trim, trim_start, trim_end, is_empty_text, to_upper_ascii}
use framework_kyrux.Orm.Marks.{marks, count_marks, marks-append, marks_list, is_space-mark}
use framework_kyrux.Orm.Model.{Field, ModelMeta}
use framework_kyrux.Orm.Query.{Query, pk_column}
use framework_kyrux.Orm.Query.Balance.{IsBalanced, IsPlainMeta}
use framework_kyrux.Orm.Last.{
  same_upper, upper_letter, before_suffix, reverse_term, reverse_terms, reverse_order, reversed,
}

marks-trim_start : (s : String) → marks (trim_start s) ≡ marks s
unfolding trim_start count_marks
marks-trim_start String.[] = refl
marks-trim_start (String.◌∷◌ c s) = ground (arith, is_space-mark (code c), marks-trim_start s)

empty_unmarked : (s : String) → is_empty_text s ≡ true → marks s ≡ 0
unfolding count_marks
empty_unmarked String.[] h = refl
empty_unmarked (String.◌∷◌ c s) h = absurd (ground arith)

marks-trim_end : (s : String) → marks (trim_end s) ≡ marks s
unfolding trim_end count_marks
marks-trim_end String.[] = refl
marks-trim_end (String.◌∷◌ c s) =
    ground (arith, is_space-mark (code c), marks-trim_end s, empty_unmarked (trim_end s))

marks-trim : (s : String) → marks (trim s) ≡ marks s
unfolding trim
marks-trim s = marks-trim_end (trim_start s) ∙ marks-trim_start s

upper_letter-mark : (c : ℕ) → (upper_letter c == b'?') ≡ (c == b'?')
unfolding upper_letter to_upper_ascii
upper_letter-mark c = ground arith

same_upper-marks : (d x : String) → same_upper d x ≡ true → marks x ≡ marks d
unfolding same_upper count_marks
same_upper-marks String.[] String.[] h = refl
same_upper-marks String.[] (String.◌∷◌ c cs) h = absurd (ground arith)
same_upper-marks (String.◌∷◌ d ds) String.[] h = absurd (ground arith)
same_upper-marks (String.◌∷◌ d ds) (String.◌∷◌ c cs) h =
    ground (arith, same_upper-marks ds cs, upper_letter-mark (code c))

before_suffix-marks :
    (suffix s t : String) → marks suffix ≡ 0 → before_suffix suffix s ≡ some t → marks t ≡ marks s
unfolding before_suffix count_marks
before_suffix-marks suffix String.[] t p h = absurd (ground arith)
before_suffix-marks suffix (String.◌∷◌ c s) t p h =
    elim (Bool-cases (same_upper suffix (String.◌∷◌ c s))) [
      | inl e ↦
          let cut_here : some "" ≡ some t = rw (e, before_suffix) at h in
          let empty : "" ≡ t = ground arith in
          sym (ap marks empty) ∙ sym (same_upper-marks suffix (String.◌∷◌ c s) e ∙ p)
      | inr e ↦ elim (Option-cases (before_suffix suffix s)) [
        | inl n ↦ absurd (ground arith)
        | inr (u, n) ↦
            let kept : String.◌∷◌ c u ≡ t = ground arith in
            let rest = before_suffix-marks suffix s u p n in
            sym (ap marks kept) ∙ ground (arith, rest)
      ]
    ]

marks-reverse_term : (term : String) → marks (reverse_term term) ≡ marks term
unfolding reverse_term count_marks
marks-reverse_term term = elim (Option-cases (before_suffix " DESC" (trim term))) [
  | inr (t, e) ↦
      rw (e, reverse_term)
        (marks-append (trim t) " ASC"
          ∙ omega (
            arith,
            marks-trim t,
            before_suffix-marks " DESC" (trim term) t refl e,
            marks-trim term,
          ))
  | inl n ↦ elim (Option-cases (before_suffix " ASC" (trim term))) [
    | inr (t, e) ↦
        rw (n, e, reverse_term)
          (marks-append (trim t) " DESC"
            ∙ omega (
              arith,
              marks-trim t,
              before_suffix-marks " ASC" (trim term) t refl e,
              marks-trim term,
            ))
    | inl m ↦
        rw (n, m, reverse_term) (marks-append (trim term) " DESC" ∙ omega (arith, marks-trim term))
  ]
]

marks-reverse_terms : (ts : List String) → marks_list (reverse_terms ts) ≡ marks_list ts
unfolding reverse_terms
marks-reverse_terms [] = refl
marks-reverse_terms (t ∷ ts) = omega (arith, marks-reverse_term t, marks-reverse_terms ts)

marks-reverse_order :
    (ts : List String) (meta : ModelMeta)
    → IsPlainMeta meta
    → marks_list (reverse_order ts meta) ≡ marks_list ts
unfolding reverse_order pk_column count_marks
marks-reverse_order [] meta plain = split meta.pk_field refl
  where
    split : (o : Option Field) → meta.pk_field ≡ o → marks_list (reverse_order [] meta) ≡ 0
    split none e = rw (e, reverse_order) refl
    split (some f) e =
        let column = rw e at plain.pk_plain in
        rw (e, reverse_order) (omega (arith, marks-append f.column " DESC"))
marks-reverse_order (t ∷ ts) meta plain = marks-reverse_terms (t ∷ ts)

module _ {ℓ} {A : Type ℓ} where
  pub reversed-IsBalanced : (q : Query A) → IsBalanced q → IsBalanced (reversed q)
  unfolding reversed
  reversed-IsBalanced q b = record {
    conds = b.conds;
    orders = marks-reverse_order q.order_by q.meta b.meta_plain ∙ b.orders;
    cols_plain = b.cols_plain;
    joins_plain = b.joins_plain;
    schema_plain = b.schema_plain;
    meta_plain = b.meta_plain;
    unranked = b.unranked;
  }
