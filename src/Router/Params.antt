-- ===== src/Router/Params.antt =====
-- The parameters of path patterns (core/router/params.go: convertPattern, extractParamNames,
-- displayPath, slashAlternate; router.go: normalize). Each regular expression is matched by hand:
-- its classes of characters leave one way to match.
pub mod Matching
pub mod Conversion
pub mod Patterns
pub mod Tests
use Prim.Native.Char.{Char, code}
use framework_kyrux.Prelude.{
  ℕ, zero, suc, ◌+◌, ◌-◌, String, Bool, true, false, List, [], ◌∷◌, Option, none, some, ◌==◌, leb,
  ◌&&◌, ◌||◌, str_eq, if◌then◌else◌, ◌<>◌,
}
use framework_kyrux.Prelude.Texts.{strip_prefix, has_suffix, is_empty_text, cut}

unfoldable pub is_alpha : ℕ → Bool
is_alpha c = (leb b'a' c && leb c b'z') || (leb b'A' c && leb c b'Z')

-- [a-zA-Z_], the first of a name
unfoldable pub is_name_start : ℕ → Bool
unfolding is_alpha
is_name_start c = is_alpha c || c == b'_'

-- [a-zA-Z0-9_]
unfoldable pub is_name_rest : ℕ → Bool
unfolding is_name_start
is_name_rest c = is_name_start c || (leb b'0' c && leb c b'9')

-- The longest start of a text in a class of characters, and what follows it.
unfoldable pub span : (ℕ → Bool) → String → String × String
span p String.[] = ("", "")
span p (String.◌∷◌ c s) =
    let rest = span p s in
    if p (code c) then (String.◌∷◌ c rest.0, rest.1) else ("", String.◌∷◌ c s)

unfoldable pub starts_name : String → Bool
unfolding is_name_start
starts_name String.[] = false
starts_name (String.◌∷◌ c s) = is_name_start (code c)

-- A parameter: its name, its type or the mark of the rest of a path, and the text after it.
pub record Found : Type 0 where
  pub name : String
  pub kind : String
  pub rest : String

-- <name:type>, after its first character
unfoldable pub match_kyrux : String → Option Found
unfolding span starts_name is_name_rest
match_kyrux s =
    if starts_name s
    then (elim (strip_prefix ":" (span is_name_rest s).1) [
      | none ↦ none
      | some t ↦
          (let kind = (span is_alpha t).0 in
            elim (strip_prefix ">" (span is_alpha t).1) [
              | none ↦ none
              | some rest ↦
                  if is_empty_text kind
                  then none
                  else some (record { name = (span is_name_rest s).0; kind = kind; rest = rest })
            ])
    ])
    else none

-- {name} or {name...}, after its first character
unfoldable pub match_go : String → Option Found
unfolding span starts_name is_name_rest
match_go s =
    if starts_name s
    then (let name = (span is_name_rest s).0 in
        let after = (span is_name_rest s).1 in
        elim (strip_prefix "}" after) [
          | some rest ↦ some (record { name = name; kind = ""; rest = rest })
          | none ↦ elim (strip_prefix "...}" after) [
            | some rest ↦ some (record { name = name; kind = "..."; rest = rest })
            | none ↦ none
          ]
        ])
    else none

unfoldable pub text_size : String → ℕ
text_size String.[] = 0
text_size (String.◌∷◌ c s) = suc (text_size s)

-- ReplaceAllStringFunc with a match that starts with `mark`: `skip` characters belong to the match
-- before.
unfoldable pub replace_from : ℕ → (String → Option Found) → (Found → String) → ℕ → String → String
unfolding text_size
replace_from mark find write skip String.[] = ""
replace_from mark find write (suc skip) (String.◌∷◌ c s) = replace_from mark find write skip s
replace_from mark find write zero (String.◌∷◌ c s) =
    let plain = replace_from mark find write zero s in
    elim (if code c == mark then find s else none) [
      | none ↦ String.◌∷◌ c plain
      | some found ↦
          write found <> replace_from mark find write (text_size s - text_size found.rest) s
    ]

unfoldable pub go_param : Found → String
go_param f = if str_eq f.kind "path" then "{" <> (f.name <> "...}") else "{" <> (f.name <> "}")

-- convertPattern
unfoldable pub convert_pattern : String → String
unfolding replace_from match_kyrux go_param
convert_pattern pattern = replace_from b'<' match_kyrux go_param 0 pattern

-- The names of the matches.
unfoldable pub names_from : ℕ → String → List String
unfolding text_size match_go
names_from skip String.[] = []
names_from (suc skip) (String.◌∷◌ c s) = names_from skip s
names_from zero (String.◌∷◌ c s) =
    let plain = names_from zero s in
    elim (if code c == b'{' then match_go s else none) [
      | none ↦ plain
      | some found ↦ found.name ∷ names_from (text_size s - text_size found.rest) s
    ]

-- extractParamNames
unfoldable pub extract_param_names : String → List String
unfolding names_from
extract_param_names pattern = names_from 0 pattern

unfoldable pub shown_param : Found → String
shown_param f = if str_eq f.kind "..." then "<" <> (f.name <> ":path>") else "<" <> (f.name <> ">")

-- strings.TrimSuffix, with the suffix first
unfoldable pub trim_suffix : String → String → String
trim_suffix suffix String.[] = String.[]
trim_suffix suffix (String.◌∷◌ c s) =
    let rest = trim_suffix suffix s in
    if str_eq (String.◌∷◌ c s) suffix then "" else String.◌∷◌ c rest

-- displayPath
unfoldable pub display_path : String → String
unfolding trim_suffix replace_from match_go shown_param
display_path path = replace_from b'{' match_go shown_param 0 (trim_suffix "{$}" path)

unfoldable pub normalize : String → String
normalize pattern = if has_suffix "/" pattern then pattern <> "{$}" else pattern

-- strings.Contains, with the part first
unfoldable pub contains_text : String → String → Bool
contains_text part String.[] = is_empty_text part
contains_text part (String.◌∷◌ c s) =
    let rest = contains_text part s in
    elim (strip_prefix part (String.◌∷◌ c s)) [ none ↦ rest | some _ ↦ true ]

-- The path of a pattern, after its method.
unfoldable pub path_of : String → String
path_of pattern = elim (cut b' ' pattern) [ none ↦ "" | some (_, path) ↦ path ]

-- slashAlternate; "" where there is none.
unfoldable pub slash_alternate : String → String
unfolding contains_text trim_suffix path_of
slash_alternate pattern =
    if contains_text "...}" pattern
    then ""
    else if has_suffix "/{$}" pattern
    then (let alt = trim_suffix "/{$}" pattern in if str_eq (path_of alt) "" then "" else alt)
    else if str_eq (path_of pattern) "/"
    then ""
    else pattern <> "/{$}"
