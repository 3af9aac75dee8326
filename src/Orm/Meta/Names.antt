-- ===== src/Orm/Meta/Names.antt =====
-- The table name that a Go type gets holds a placeholder only where the type name does.
use Prim.Native.Char.{Char, code}
use framework_kyrux.Prelude.{
  ◌≡◌, refl, sym, ap, ◌∙◌, inl, inr, String, Bool, true, false, Option, none, some, arith, ◌==◌,
  ◌||◌, not, Bool-cases, Option-cases,
}
use framework_kyrux.Prelude.Texts.{has_suffix}
use framework_kyrux.Orm.Marks.{marks, count_marks, marks-append, marks-if}
use framework_kyrux.Orm.Meta.{is_vowel, y_stem, plural, snake_from, to_snake, plural_snake}

marks-y_stem : (after : Bool) (s stem : String) → y_stem after s ≡ some stem → marks stem ≡ marks s
unfolding y_stem count_marks
marks-y_stem after String.[] stem h = absurd (ground arith)
marks-y_stem after (String.◌∷◌ c String.[]) stem h =
    let empty : "" ≡ stem = ground arith in
    let last : (code c == b'y') ≡ true = ground arith in sym (ap marks empty) ∙ ground arith
marks-y_stem after (String.◌∷◌ c (String.◌∷◌ d s)) stem h =
    elim (Option-cases (y_stem (not (is_vowel c)) (String.◌∷◌ d s))) [
      | inl e ↦ absurd (ground arith)
      | inr (t, e) ↦
          let here : String.◌∷◌ c t ≡ stem = ground arith in
          let rest = marks-y_stem (not (is_vowel c)) (String.◌∷◌ d s) t e in
          sym (ap marks here) ∙ ground (arith, rest)
    ]

marks-plural : (s : String) → marks (plural s) ≡ marks s
unfolding plural count_marks
marks-plural s =
    elim (Bool-cases (
      has_suffix "s" s
      || has_suffix "x" s
      || has_suffix "z" s
      || has_suffix "sh" s
      || has_suffix "ch" s)) [
        | inl e ↦ rw e (simp marks-append (omega arith))
        | inr e ↦ rw e (elim (Option-cases (y_stem false s)) [
          | inl n ↦ rw n (simp marks-append (omega arith))
          | inr (stem, n) ↦ rw n (simp marks-append (omega (arith, marks-y_stem false s stem n)))
        ])
      ]

module _ (is_upper is_lower : Char → Bool) (to_lower : Char → Char)
    (unmarked : (c : Char) → (code (to_lower c) == b'?') ≡ (code c == b'?')) where
  marks-snake_from :
      (before : Option Char) (s : String)
      → marks (snake_from is_upper is_lower to_lower before s) ≡ marks s
  unfolding snake_from count_marks
  marks-snake_from before String.[] = refl
  marks-snake_from before (String.◌∷◌ c s) = elim (Bool-cases (is_upper c)) [
    | inl e ↦
        rw e
          (simp (marks-append, marks-if) (ground (arith, unmarked c, marks-snake_from (some c) s)))
    | inr e ↦ rw e (ground (arith, marks-snake_from (some c) s))
  ]

  pub marks-plural_snake :
      (type_name : String)
      → marks (plural_snake is_upper is_lower to_lower type_name) ≡ marks type_name
  unfolding plural_snake to_snake
  marks-plural_snake type_name = marks-plural _ ∙ marks-snake_from none type_name
