-- ===== src/Orm/Rewrite/Numbering.antt =====
-- The placeholders of an SQL text are numbered from 1 on, in their order.
use Prim.Native.Char.{Char, code}
use text.Mathlib.TextEquality.{Char-path}
use text.Mathlib.TextLemmas.{nil-append, cons-append}
use framework_kyrux.Prelude.{
  ℕ, suc, ◌+◌, ◌≡◌, refl, ap, ◌∙◌, String, List, [], ◌∷◌, arith, ◌==◌, if◌then◌else◌, ◌<>◌, length,
  true, false, All, join, join_rest, Bool-cases, inl, inr, ◌≢◌, ◌⊎◌,
}
use framework_kyrux.Orm.Marks.{marks, count_marks, marks-append}
use framework_kyrux.Orm.Rewrite.{
  itoa, marks-itoa_from, rewrite_from, rewrite_placeholders, is_pg, cons_first, split_marks,
  weave_rest, weave,
}

marks-itoa : (n : ℕ) → marks (itoa n) ≡ 0
unfolding itoa
marks-itoa n = marks-itoa_from (suc n) n

split_marks-ne-nil : (s : String) → split_marks s ≢ []
unfolding split_marks
split_marks-ne-nil String.[] = cc
split_marks-ne-nil (String.◌∷◌ c s) = step (split_marks s) (split_marks-ne-nil s)
  where
    step : (ps : List String) → ps ≢ [] → (if code c == b'?' then "" ∷ ps else cons_first c ps) ≢ []
    step [] h = absurd (h refl)
    step (p ∷ ps) h = ground arith

weave_rest-weave :
    (n : ℕ) (ps : List String) → ps ≢ [] → weave_rest n ps ≡ "$" <> (itoa n <> weave (n + 1) ps)
unfolding weave
weave_rest-weave n [] h = absurd (h refl)
weave_rest-weave n (p ∷ ps) h = refl

weave-cons_first :
    (n : ℕ) (c : Char) (ps : List String)
    → ps ≢ []
    → weave n (cons_first c ps) ≡ String.◌∷◌ c (weave n ps)
unfolding weave cons_first
weave-cons_first n c [] h = absurd (h refl)
weave-cons_first n c (p ∷ ps) h = cons-append c p (weave_rest n ps)

rewrite_from-weave : (n : ℕ) (s : String) → rewrite_from n s ≡ weave n (split_marks s)
unfolding rewrite_from split_marks weave
rewrite_from-weave n String.[] = refl
rewrite_from-weave n (String.◌∷◌ c s) = elim (Bool-cases (code c == b'?')) [
  | inl e ↦ rw e (
      rw (nil-append (weave_rest n (split_marks s))) (
        rw (weave_rest-weave n (split_marks s) (split_marks-ne-nil s))
          (ap (λ t. "$" <> (itoa n <> t)) (rewrite_from-weave (n + 1) s))))
  | inr e ↦ rw e (
      rw (weave-cons_first n c (split_marks s) (split_marks-ne-nil s))
        (ap (λ t. String.◌∷◌ c t) (rewrite_from-weave n s)))
]

join_rest-cons_first :
    (c : Char) (ps : List String)
    → ps ≢ []
    → join "?" (cons_first c ps) ≡ String.◌∷◌ c (join "?" ps)
unfolding cons_first
join_rest-cons_first c [] h = absurd (h refl)
join_rest-cons_first c (p ∷ ps) h = cons-append c p (join_rest "?" ps)

join_rest-join : (ps : List String) → ps ≢ [] → join_rest "?" ps ≡ "?" <> join "?" ps
join_rest-join [] h = absurd (h refl)
join_rest-join (p ∷ ps) h = refl

-- What the parts of a text are: they hold no placeholder, and joined by `?` they are the text.
pub record IsSplit (s : String) (ps : List String) : Type 0 where
  pub joined : join "?" ps ≡ s
  pub plain : All (λ p. marks p ≡ 0) ps
  pub counted : length ps ≡ marks s + 1

mark_char : (c : Char) (s : String) → (code c == b'?') ≡ true → "?" <> s ≡ String.◌∷◌ c s
mark_char c s e =
    cons-append "?" "" s
    ∙ ap (λ t. String.◌∷◌ "?" t) (nil-append s)
    ∙ ap (λ d. String.◌∷◌ d s) (Char-path "?" c (ground arith))

join-split_marks : (s : String) → join "?" (split_marks s) ≡ s
unfolding split_marks
join-split_marks String.[] = refl
join-split_marks (String.◌∷◌ c s) = elim (Bool-cases (code c == b'?')) [
  | inl e ↦ rw e (
      nil-append _
      ∙ join_rest-join (split_marks s) (split_marks-ne-nil s)
      ∙ ap (λ t. "?" <> t) (join-split_marks s)
      ∙ mark_char c s e)
  | inr e ↦ rw e (
      join_rest-cons_first c (split_marks s) (split_marks-ne-nil s)
      ∙ ap (λ t. String.◌∷◌ c t) (join-split_marks s))
]

IsPlain-cons_first :
    (c : Char) (ps : List String)
    → (code c == b'?') ≡ false
    → All (λ p. marks p ≡ 0) ps
    → All (λ p. marks p ≡ 0) (cons_first c ps)
unfolding cons_first count_marks
IsPlain-cons_first c [] e h = (rw e, tt)
IsPlain-cons_first c (p ∷ ps) e h = (rw e h.0, h.1)

split_marks-IsPlain : (s : String) → All (λ p. marks p ≡ 0) (split_marks s)
unfolding split_marks count_marks
split_marks-IsPlain String.[] = (refl, tt)
split_marks-IsPlain (String.◌∷◌ c s) = elim (Bool-cases (code c == b'?')) [
  | inl e ↦ rw e (refl, split_marks-IsPlain s)
  | inr e ↦ rw e (IsPlain-cons_first c (split_marks s) e (split_marks-IsPlain s))
]

length-cons_first : (c : Char) (ps : List String) → ps ≢ [] → length (cons_first c ps) ≡ length ps
unfolding cons_first
length-cons_first c [] h = absurd (h refl)
length-cons_first c (p ∷ ps) h = refl

length-split_marks : (s : String) → length (split_marks s) ≡ marks s + 1
unfolding split_marks count_marks
length-split_marks String.[] = refl
length-split_marks (String.◌∷◌ c s) = elim (Bool-cases (code c == b'?')) [
  | inl e ↦ rw e (omega (arith, length-split_marks s))
  | inr e ↦ rw e (length-cons_first c (split_marks s) (split_marks-ne-nil s) ∙ length-split_marks s)
]

split_marks-IsSplit : (s : String) → IsSplit s (split_marks s)
split_marks-IsSplit s = record {
  joined = join-split_marks s;
  plain = split_marks-IsPlain s;
  counted = length-split_marks s;
}

rewrite_from_unmarked : (n : ℕ) (s : String) → marks (rewrite_from n s) ≡ 0
unfolding rewrite_from count_marks
rewrite_from_unmarked n String.[] = refl
rewrite_from_unmarked n (String.◌∷◌ c s) = elim (Bool-cases (code c == b'?')) [
  | inl e ↦ rw e (simp (marks-append, marks-itoa, rewrite_from_unmarked (n + 1) s) (omega arith))
  | inr e ↦ rw e (rw e (rewrite_from_unmarked n s))
]

-- For PostgreSQL the query is cut at its placeholders, and the parts are put together again with
-- `$1`, `$2`, and so on between them, so no `?` is left; for another driver it is unchanged.
pub rewrite_placeholders_numbered :
    (driver query : String)
    → ((is_pg driver ≡ true)
        × IsSplit query (split_marks query)
        × (rewrite_placeholders driver query ≡ weave 1 (split_marks query))
        × (marks (rewrite_placeholders driver query) ≡ 0))
      ⊎ ((is_pg driver ≡ false) × (rewrite_placeholders driver query ≡ query))
unfolding rewrite_placeholders
rewrite_placeholders_numbered driver query = elim (Bool-cases (is_pg driver)) [
  | inl e ↦ inl (
    e,
    split_marks-IsSplit query,
    rw e (rewrite_from-weave 1 query),
    rw e (rewrite_from_unmarked 1 query),
  )
  | inr e ↦ inr (e, rw e)
]
