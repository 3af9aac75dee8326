-- ===== src/Prelude/Text.antt =====
-- Texts as lists of code points, joining texts by a separator, and trimming white space.
use Prim.Native.Nat.{ℕ}
use Prim.Native.Char.{code}
use Prim.Native.String.{String, ◌++◌ as append}
use mathlib.Core.Path.{◌≡◌, ap, ◌∙◌}
use mathlib.Core.Bool.{Bool, ◌&&◌, ◌||◌}
use mathlib.Core.List.{List, [], ◌∷◌, ◌++◌, reverse}
use text.Mathlib.TextLemmas.{nil-append, cons-append}
use framework_kyrux.Prelude.Tests.{leb, ◌==◌, if◌then◌else◌}

infixr 66 ◌<>◌
abbrev pub ◌<>◌ : String → String → String
s <> t = append s t

abbrev pub codes : String → List ℕ
codes String.[] = []
codes (String.◌∷◌ c s) = code c ∷ codes s

pub codes-append : (s t : String) → codes (s <> t) ≡ codes s ++ codes t
codes-append String.[] t = ap codes (nil-append t)
codes-append (String.◌∷◌ c s) t =
    ap codes (cons-append c s t) ∙ ap (λ l. code c ∷ l) (codes-append s t)

-- What follows the first part of a joined text.
abbrev pub join_rest : String → List String → String
join_rest sep [] = ""
join_rest sep (s ∷ ss) = sep <> (s <> join_rest sep ss)

-- `strings.Join`
abbrev pub join : String → List String → String
join sep [] = ""
join sep (s ∷ ss) = s <> join_rest sep ss

-- `unicode.IsSpace`
unfoldable pub is_space : ℕ → Bool
is_space c =
    (leb 9 c && leb c 13)
    || c == 32
    || c == 0x85
    || c == 0xa0
    || c == 0x1680
    || (leb 0x2000 c && leb c 0x200a)
    || c == 0x2028
    || c == 0x2029
    || c == 0x202f
    || c == 0x205f
    || c == 0x3000

-- The text with the white space at its start taken off.
unfoldable pub trim_left : List ℕ → List ℕ
trim_left [] = []
trim_left (c ∷ cs) = if is_space c then trim_left cs else c ∷ cs

-- `strings.TrimSpace`
unfoldable pub trim_space : List ℕ → List ℕ
unfolding trim_left
trim_space cs = reverse (trim_left (reverse (trim_left cs)))
