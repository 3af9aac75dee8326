-- ===== src/Orm/Marks.antt =====
-- The `?` placeholders of an SQL text: how many there are, and their numbering for PostgreSQL
-- (core/orm/exec.go, rewritePlaceholders).
use mathlib.Core.List.{reverse, reverse-cons}
use framework_kyrux.Prelude.{
  ℕ, suc, ◌+◌, ◌≡◌, refl, String, Bool, List, [], ◌∷◌, ◌++◌, arith, ◌==◌, if◌then◌else◌, codes,
  codes-append, ◌<>◌, join, join_rest, trim_left, trim_space, is_space, Bool-cases, true, false,
  inl, inr,
}

-- The placeholders among some code points.
unfoldable pub count_marks : List ℕ → ℕ
count_marks [] = 0
count_marks (c ∷ cs) = if c == b'?' then suc (count_marks cs) else count_marks cs

-- The placeholders of a text.
abbrev pub marks : String → ℕ
marks s = count_marks (codes s)

pub count_marks-append : (xs ys : List ℕ) → count_marks (xs ++ ys) ≡ count_marks xs + count_marks ys
unfolding count_marks
count_marks-append [] ys = omega arith
count_marks-append (x ∷ xs) ys = ground (arith, count_marks-append xs ys)

pub marks-append : (s t : String) → marks (s <> t) ≡ marks s + marks t
marks-append s t = rw (codes-append s t) (count_marks-append (codes s) (codes t))

count_marks-reverse : (xs : List ℕ) → count_marks (reverse xs) ≡ count_marks xs
unfolding count_marks
count_marks-reverse [] = refl
count_marks-reverse (x ∷ xs) =
    rw (reverse-cons x xs)
      (ground (arith, count_marks-append (reverse xs) (x ∷ []), count_marks-reverse xs))

pub is_space-mark : (c : ℕ) → is_space c ≡ true → (c == b'?') ≡ false
unfolding is_space
is_space-mark c h = elim (Bool-cases (c == b'?')) [
  | inl e ↦ absurd (mark_is_no_space (rw (number_eq c b'?' e) at h))
  | inr e ↦ e
]
  where
    number_eq : (a b : ℕ) → (a == b) ≡ true → a ≡ b
    number_eq a b e = ground arith

    mark_is_no_space : is_space b'?' ≡ true → ⊥
    mark_is_no_space e = cc

count_marks-trim_left : (xs : List ℕ) → count_marks (trim_left xs) ≡ count_marks xs
unfolding count_marks trim_left
count_marks-trim_left [] = refl
count_marks-trim_left (x ∷ xs) = ground (arith, is_space-mark x, count_marks-trim_left xs)

-- White space holds no placeholder.
pub count_marks-trim_space : (xs : List ℕ) → count_marks (trim_space xs) ≡ count_marks xs
unfolding trim_space
count_marks-trim_space xs =
    rw (count_marks-reverse, count_marks-trim_left, count_marks-reverse, count_marks-trim_left)

-- The placeholders of some texts together.
abbrev pub marks_list : List String → ℕ
marks_list [] = 0
marks_list (s ∷ ss) = marks s + marks_list ss

pub marks_list-append :
    (xs ys : List String) → marks_list (xs ++ ys) ≡ marks_list xs + marks_list ys
marks_list-append [] ys = omega arith
marks_list-append (x ∷ xs) ys = omega (arith, marks_list-append xs ys)

marks-join_rest : (ss : List String) → marks (join_rest ", " ss) ≡ marks_list ss
unfolding count_marks
marks-join_rest [] = refl
marks-join_rest (s ∷ ss) = simp (marks-append, marks-join_rest ss) (omega arith)

pub marks-join : (ss : List String) → marks (join ", " ss) ≡ marks_list ss
unfolding count_marks
marks-join [] = refl
marks-join (s ∷ ss) = simp (marks-append, marks-join_rest ss)

pub marks-if :
    (b : Bool) (s t : String) → marks (if b then s else t) ≡ (if b then marks s else marks t)
marks-if true s t = refl
marks-if false s t = refl
