-- ===== src/Orm/Rewrite.antt =====
-- The numbering of the placeholders for PostgreSQL (core/orm/exec.go: isPG, rewritePlaceholders).
-- `strconv.Itoa` is written out for the numbers from 0 on, on fuel that exceeds the number.
pub mod Numbering
use Prim.Native.Char.{Char, code}
use text.Mathlib.TextLemmas.{nil-append, cons-append}
use framework_kyrux.Prelude.{
  ℕ, zero, suc, ◌+◌, ◌/◌, ◌%◌, ◌≡◌, refl, String, Bool, List, [], ◌∷◌, arith, ◌==◌, ltb, str_eq,
  if◌then◌else◌, ◌||◌, ◌<>◌, true, false,
}
use framework_kyrux.Orm.Marks.{marks, count_marks, marks-append, marks-if}

-- isPG
unfoldable pub is_pg : String → Bool
is_pg driver = str_eq driver "postgres" || str_eq driver "pgx"

digit : ℕ → String
digit d =
    if d == 0
    then "0"
    else if d == 1
    then "1"
    else if d == 2
    then "2"
    else if d == 3
    then "3"
    else if d == 4
    then "4"
    else if d == 5
    then "5"
    else if d == 6
    then "6"
    else if d == 7
    then "7"
    else if d == 8
    then "8"
    else "9"

itoa_from : ℕ → ℕ → String
unfolding digit
itoa_from zero n = ""
itoa_from (suc fuel) n =
    let high = itoa_from fuel (n / 10) in if ltb n 10 then digit n else high <> digit (n % 10)

-- strconv.Itoa
unfoldable pub itoa : ℕ → String
unfolding itoa_from
itoa n = itoa_from (suc n) n

-- The loop of rewritePlaceholders; `n` is the number of the next placeholder.
rewrite_from : ℕ → String → String
rewrite_from n String.[] = ""
rewrite_from n (String.◌∷◌ c s) =
    let mark = code c == b'?' in
    let rest = rewrite_from (if mark then n + 1 else n) s in
    if mark then "$" <> (itoa n <> rest) else String.◌∷◌ c rest

unfoldable pub rewrite_placeholders : String → String → String
unfolding rewrite_from itoa is_pg
rewrite_placeholders driver query = if is_pg driver then rewrite_from 1 query else query

marks-digit : (d : ℕ) → marks (digit d) ≡ 0
unfolding digit count_marks
marks-digit d = simp marks-if (ground arith)

marks-itoa_from : (fuel n : ℕ) → marks (itoa_from fuel n) ≡ 0
unfolding itoa_from count_marks
marks-itoa_from zero n = refl
marks-itoa_from (suc fuel) n =
    simp (marks-if, marks-append, marks-itoa_from fuel (n / 10))
      (ground (arith, marks-digit n, marks-digit (n % 10)))

-- The parts of a text between its placeholders.
cons_first : Char → List String → List String
cons_first c [] = String.◌∷◌ c String.[] ∷ []
cons_first c (p ∷ ps) = String.◌∷◌ c p ∷ ps

unfoldable pub split_marks : String → List String
unfolding cons_first
split_marks String.[] = "" ∷ []
split_marks (String.◌∷◌ c s) =
    let rest = split_marks s in if code c == b'?' then "" ∷ rest else cons_first c rest

-- Parts put together with the numbers from `n` on between them.
weave_rest : ℕ → List String → String
weave_rest n [] = ""
weave_rest n (p ∷ ps) = "$" <> (itoa n <> (p <> weave_rest (n + 1) ps))

unfoldable pub weave : ℕ → List String → String
unfolding weave_rest
weave n [] = ""
weave n (p ∷ ps) = p <> weave_rest n ps
