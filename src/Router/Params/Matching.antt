-- ===== src/Router/Params/Matching.antt =====
-- What the matching of parameters finds in a text that begins with one.
use Prim.Native.Char.{Char, code}
use text.Mathlib.TextLemmas.{nil-append, cons-append}
use framework_kyrux.Prelude.{
  ℕ, suc, ◌+◌, ◌≡◌, refl, ap, String, Bool, true, false, Option, some, arith, ◌<>◌,
}
use framework_kyrux.Prelude.Texts.{strip_prefix, is_empty_text}
use framework_kyrux.Router.Params.{
  is_alpha, is_name_start, is_name_rest, span, starts_name, Found, match_kyrux, match_go, text_size,
  replace_from, names_from,
}

-- All characters of a text are in a class.
abbrev pub Consists : (ℕ → Bool) → String → Type 0
Consists p String.[] = Unit
Consists p (String.◌∷◌ c s) = (p (code c) ≡ true) × Consists p s

-- What a name of a parameter is, and the name of a type.
pub record IsName (s : String) : Type 0 where
  pub starts : starts_name s ≡ true
  pub consists : Consists is_name_rest s

pub record IsKind (s : String) : Type 0 where
  pub some_letter : is_empty_text s ≡ false
  pub letters : Consists is_alpha s

span-append :
    (p : ℕ → Bool) (s : String) (c : Char) (rest : String)
    → Consists p s
    → p (code c) ≡ false
    → span p (s <> String.◌∷◌ c rest) ≡ (s, String.◌∷◌ c rest)
unfolding span
span-append p String.[] c rest h stop = rw (nil-append (String.◌∷◌ c rest), stop) refl
span-append p (String.◌∷◌ d s) c rest h stop =
    rw (cons-append d s (String.◌∷◌ c rest), h.0, span-append p s c rest h.1 stop) refl

starts_name-append : (s rest : String) → starts_name s ≡ true → starts_name (s <> rest) ≡ true
unfolding starts_name
starts_name-append String.[] rest h = absurd (ground arith)
starts_name-append (String.◌∷◌ c s) rest h = rw (cons-append c s rest) h

-- The text of a parameter after its first character.
abbrev pub kyrux_text : String → String → String → String
kyrux_text name kind rest = name <> String.◌∷◌ ":" (kind <> String.◌∷◌ ">" rest)

pub match_kyrux-found :
    (name kind rest : String)
    → IsName name
    → IsKind kind
    → match_kyrux (kyrux_text name kind rest)
      ≡ some (record { name = name; kind = kind; rest = rest })
unfolding match_kyrux strip_prefix is_alpha is_name_rest is_name_start
match_kyrux-found name kind rest n k =
    let first = span-append is_name_rest name ":" (kind <> String.◌∷◌ ">" rest) n.consists refl in
    let second = span-append is_alpha kind ">" rest k.letters refl in
    rw
      (
        starts_name-append name (String.◌∷◌ ":" (kind <> String.◌∷◌ ">" rest)) n.starts,
        first,
        second,
        second,
        k.some_letter,
        first,
      )
      refl

pub match_go-found :
    (name rest : String)
    → IsName name
    → match_go (name <> String.◌∷◌ "}" rest) ≡ some (record { name = name; kind = ""; rest = rest })
unfolding match_go strip_prefix is_alpha is_name_rest is_name_start
match_go-found name rest n =
    rw
      (
        starts_name-append name (String.◌∷◌ "}" rest) n.starts,
        span-append is_name_rest name "}" rest n.consists refl,
        span-append is_name_rest name "}" rest n.consists refl,
      )
      refl

abbrev pub path_text : String → String
path_text rest = String.◌∷◌ "." (String.◌∷◌ "." (String.◌∷◌ "." (String.◌∷◌ "}" rest)))

pub match_go-found_path :
    (name rest : String)
    → IsName name
    → match_go (name <> path_text rest) ≡ some (record { name = name; kind = "..."; rest = rest })
unfolding match_go strip_prefix is_alpha is_name_rest is_name_start
match_go-found_path name rest n =
    let first =
      span-append is_name_rest name "." (String.◌∷◌ "." (String.◌∷◌ "." (String.◌∷◌ "}" rest)))
        n.consists refl in
    rw (starts_name-append name (path_text rest) n.starts, first, first, first) refl

pub text_size-append : (s t : String) → text_size (s <> t) ≡ text_size s + text_size t
unfolding text_size
text_size-append String.[] t = rw (nil-append t) (omega arith)
text_size-append (String.◌∷◌ c s) t = rw (cons-append c s t) (omega (arith, text_size-append s t))

-- Skipping a text.
pub replace_from-append :
    (mark : ℕ) (find : String → Option Found) (write : Found → String) (s t : String) (n : ℕ)
    → replace_from mark find write (text_size s + n) (s <> t) ≡ replace_from mark find write n t
unfolding replace_from text_size
replace_from-append mark find write String.[] t n =
    rw (nil-append t) (ap (λ k. replace_from mark find write k t) (omega arith))
replace_from-append mark find write (String.◌∷◌ c s) t n =
    let more : suc (text_size s) + n ≡ suc (text_size s + n) = omega arith in
    rw (cons-append c s t, more) (replace_from-append mark find write s t n)

pub names_from-append :
    (s t : String) (n : ℕ) → names_from (text_size s + n) (s <> t) ≡ names_from n t
unfolding names_from text_size
names_from-append String.[] t n = rw (nil-append t) (ap (λ k. names_from k t) (omega arith))
names_from-append (String.◌∷◌ c s) t n =
    let more : suc (text_size s) + n ≡ suc (text_size s + n) = omega arith in
    rw (cons-append c s t, more) (names_from-append s t n)
