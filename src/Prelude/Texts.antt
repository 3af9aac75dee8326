-- ===== src/Prelude/Texts.antt =====
-- Texts cut into parts: splitting at a code point, prefixes and suffixes, and trimming.
use Prim.Native.Nat.{ℕ, ◌-◌}
use Prim.Native.Char.{Char, code}
use Prim.Native.String.{String}
use mathlib.Core.Bool.{Bool, true, false, ◌&&◌}
use mathlib.Core.Option.{Option, none, some}
use mathlib.Core.List.{List, [], ◌∷◌}
use framework_kyrux.Prelude.Tests.{◌==◌, leb, if◌then◌else◌}
use framework_kyrux.Prelude.Text.{is_space}

abbrev pub is_empty_text : String → Bool
is_empty_text String.[] = true
is_empty_text (String.◌∷◌ c s) = false

-- A character before the first of some parts.
abbrev pub prepend : Char → List String → List String
prepend c [] = String.◌∷◌ c String.[] ∷ []
prepend c (p ∷ ps) = String.◌∷◌ c p ∷ ps

-- `strings.Split` at one character
unfoldable pub split_at : ℕ → String → List String
split_at sep String.[] = "" ∷ []
split_at sep (String.◌∷◌ c s) =
    let rest = split_at sep s in if code c == sep then "" ∷ rest else prepend c rest

-- `strings.Cut` at one character
unfoldable pub cut : ℕ → String → Option (String × String)
cut sep String.[] = none
cut sep (String.◌∷◌ c s) =
    let rest = cut sep s in
    if code c == sep
    then some ("", s)
    else (elim rest [ none ↦ none | some p ↦ some (String.◌∷◌ c p.0, p.1) ])

-- `strings.CutPrefix`, with the prefix first
unfoldable pub strip_prefix : String → String → Option String
strip_prefix String.[] s = some s
strip_prefix (String.◌∷◌ p ps) String.[] = none
strip_prefix (String.◌∷◌ p ps) (String.◌∷◌ c s) =
    let rest = strip_prefix ps s in if code p == code c then rest else none

abbrev pub has_prefix : String → String → Bool
has_prefix prefix s = elim (strip_prefix prefix s) [ none ↦ false | some _ ↦ true ]

abbrev pub same_text : String → String → Bool
same_text s t = elim (strip_prefix s t) [ none ↦ false | some r ↦ is_empty_text r ]

-- `strings.HasSuffix`, with the suffix first
unfoldable pub has_suffix : String → String → Bool
has_suffix suffix String.[] = same_text suffix String.[]
has_suffix suffix (String.◌∷◌ c s) =
    let rest = has_suffix suffix s in if same_text suffix (String.◌∷◌ c s) then true else rest

-- `strings.TrimSpace`
unfoldable pub trim_start : String → String
trim_start String.[] = String.[]
trim_start (String.◌∷◌ c s) =
    let rest = trim_start s in if is_space (code c) then rest else String.◌∷◌ c s

unfoldable pub trim_end : String → String
trim_end String.[] = String.[]
trim_end (String.◌∷◌ c s) =
    let rest = trim_end s in
    if is_space (code c) && is_empty_text rest then String.[] else String.◌∷◌ c rest

unfoldable pub trim : String → String
unfolding trim_start trim_end
trim s = trim_end (trim_start s)

-- The capital of an ASCII letter
unfoldable pub to_upper_ascii : ℕ → ℕ
to_upper_ascii c = if leb b'a' c && leb c b'z' then c - 32 else c
