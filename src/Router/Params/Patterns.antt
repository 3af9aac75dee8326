-- ===== src/Router/Params/Patterns.antt =====
-- Patterns of a route as the developer means them, in his notation and in that of net/http.
use Prim.Native.Char.{Char, code}
use text.Mathlib.TextLemmas.{nil-append, cons-append, append_assoc}
use framework_kyrux.Prelude.{
  ◌≡◌, ap, ◌∙◌, String, false, List, [], ◌∷◌, ◌==◌, str_eq, if◌then◌else◌, ◌<>◌, Bool-cases, inl,
  inr,
}
use framework_kyrux.Router.Params.{go_param}
use framework_kyrux.Router.Params.Matching.{IsName, IsKind, kyrux_text, path_text}

-- A pattern as the developer means it: characters that stand for themselves, and parameters.
pub data Segment : Type 0 where
  literal : Char → Segment
  param : String → String → Segment

-- The pattern in the developer's notation.
unfoldable pub written : List Segment → String
written [] = ""
written (literal c ∷ ps) = String.◌∷◌ c (written ps)
written (param name kind ∷ ps) = String.◌∷◌ "<" (kyrux_text name kind (written ps))

abbrev pub go_text : String → String → String → String
go_text name kind rest =
    String.◌∷◌ "{" (name <> (if str_eq kind "path" then path_text rest else String.◌∷◌ "}" rest))

-- The pattern in the notation of net/http.
unfoldable pub compiled : List Segment → String
compiled [] = ""
compiled (literal c ∷ ps) = String.◌∷◌ c (compiled ps)
compiled (param name kind ∷ ps) = go_text name kind (compiled ps)

unfoldable pub names : List Segment → List String
names [] = []
names (literal c ∷ ps) = names ps
names (param name kind ∷ ps) = name ∷ names ps

-- No literal opens a parameter, and the parameters have names and types.
abbrev pub IsWritable : Segment → Type 0
IsWritable (literal c) = ((code c == b'<') ≡ false) × ((code c == b'{') ≡ false)
IsWritable (param name kind) = IsName name × IsKind kind

one-append : (c : Char) (s : String) → String.◌∷◌ c String.[] <> s ≡ String.◌∷◌ c s
one-append c s = cons-append c String.[] s ∙ ap (λ t. String.◌∷◌ c t) (nil-append s)

dots-append : (s : String) → "...}" <> s ≡ path_text s
dots-append s =
    cons-append "." "..}" s
    ∙ ap (λ t. String.◌∷◌ "." t)
        (cons-append "." ".}" s
          ∙ ap (λ t. String.◌∷◌ "." t)
              (cons-append "." "}" s ∙ ap (λ t. String.◌∷◌ "." t) (one-append "}" s)))

braced-append :
    (name close tail : String)
    → ("{" <> (name <> close)) <> tail ≡ String.◌∷◌ "{" (name <> (close <> tail))
braced-append name close tail =
    append_assoc "{" (name <> close) tail
    ∙ ap (λ t. "{" <> t) (append_assoc name close tail)
    ∙ one-append "{" (name <> (close <> tail))

pub go_param-text :
    (name kind rest tail : String)
    → go_param (record { name = name; kind = kind; rest = rest }) <> tail ≡ go_text name kind tail
unfolding go_param
go_param-text name kind rest tail = elim (Bool-cases (str_eq kind "path")) [
  | inl e ↦
      rw e
        (braced-append name "...}" tail ∙ ap (λ t. String.◌∷◌ "{" (name <> t)) (dots-append tail))
  | inr e ↦
      rw e
        (braced-append name "}" tail ∙ ap (λ t. String.◌∷◌ "{" (name <> t)) (one-append "}" tail))
]

path_text-append : (rest end : String) → path_text rest <> end ≡ path_text (rest <> end)
path_text-append rest end =
    cons-append "." (String.◌∷◌ "." (String.◌∷◌ "." (String.◌∷◌ "}" rest))) end
    ∙ ap (λ t. String.◌∷◌ "." t)
        (cons-append "." (String.◌∷◌ "." (String.◌∷◌ "}" rest)) end
          ∙ ap (λ t. String.◌∷◌ "." t)
              (cons-append "." (String.◌∷◌ "}" rest) end
                ∙ ap (λ t. String.◌∷◌ "." t) (cons-append "}" rest end)))

pub go_text-append :
    (name kind rest end : String) → go_text name kind rest <> end ≡ go_text name kind (rest <> end)
go_text-append name kind rest end = elim (Bool-cases (str_eq kind "path")) [
  | inl e ↦ rw e (
      cons-append "{" (name <> path_text rest) end
      ∙ ap (λ t. String.◌∷◌ "{" t)
          (append_assoc name (path_text rest) end
            ∙ ap (λ t. name <> t) (path_text-append rest end)))
  | inr e ↦ rw e (
      cons-append "{" (name <> String.◌∷◌ "}" rest) end
      ∙ ap (λ t. String.◌∷◌ "{" t)
          (append_assoc name (String.◌∷◌ "}" rest) end
            ∙ ap (λ t. name <> t) (cons-append "}" rest end)))
]
