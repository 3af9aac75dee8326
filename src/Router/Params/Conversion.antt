-- ===== src/Router/Params/Conversion.antt =====
-- The parameters that a route was written with are those that the router reads.
use Prim.Native.Char.{Char, code}
use text.Mathlib.TextLemmas.{nil-append, cons-append, append-nil}
use framework_kyrux.Prelude.{
  ℕ, suc, ◌+◌, ◌-◌, ◌≡◌, refl, sym, ap, ◌∙◌, String, true, false, List, [], ◌∷◌, Option, some,
  arith, ◌==◌, str_eq, ◌<>◌, Bool-cases, inl, inr, All,
}
use framework_kyrux.Prelude.Texts.{has_suffix}
use framework_kyrux.Router.Params.{
  Found, match_kyrux, match_go, go_param, text_size, replace_from, names_from, convert_pattern,
  extract_param_names, normalize, starts_name, is_name_start, is_alpha,
}
use framework_kyrux.Router.Params.Matching.{
  IsName, kyrux_text, path_text, match_kyrux-found, match_go-found, match_go-found_path,
  text_size-append, replace_from-append, names_from-append,
}
use framework_kyrux.Router.Params.Patterns.{
  Segment, literal, param, written, compiled, names, IsWritable, go_text, go_param-text,
  go_text-append,
}

replace_from-found :
    (mark : ℕ) (find : String → Option Found) (write : Found → String) (c : Char) (s : String)
    (found : Found)
    → (code c == mark) ≡ true
    → find s ≡ some found
    → replace_from mark find write 0 (String.◌∷◌ c s)
      ≡ write found <> replace_from mark find write (text_size s - text_size found.rest) s
unfolding replace_from
replace_from-found mark find write c s found at e = rw (at, e, replace_from) refl

names_from-literal :
    (c : Char) (s : String)
    → (code c == b'{') ≡ false
    → names_from 0 (String.◌∷◌ c s) ≡ names_from 0 s
unfolding names_from
names_from-literal c s n = rw (n, names_from) refl

names_from-found :
    (s : String) (found : Found)
    → match_go s ≡ some found
    → names_from 0 (String.◌∷◌ "{" s)
      ≡ found.name ∷ names_from (text_size s - text_size found.rest) s
unfolding names_from
names_from-found s found e = rw (e, names_from) refl

-- What is skipped of a parameter in the developer's notation.
skip-kyrux :
    (name kind rest : String)
    → replace_from b'<' match_kyrux go_param
        (text_size (kyrux_text name kind rest) - text_size rest)
        (kyrux_text name kind rest)
      ≡ replace_from b'<' match_kyrux go_param 0 rest
unfolding replace_from text_size
skip-kyrux name kind rest =
    let far : text_size (kyrux_text name kind rest) - text_size rest
        ≡ text_size name + suc (text_size kind + suc 0) =
      omega (
        arith,
        text_size-append name (String.◌∷◌ ":" (kind <> String.◌∷◌ ">" rest)),
        text_size-append kind (String.◌∷◌ ">" rest),
      ) in
    rw
      (
        far,
        replace_from-append b'<' match_kyrux go_param name
            (String.◌∷◌ ":" (kind <> String.◌∷◌ ">" rest)) (suc (text_size kind + suc 0)),
        replace_from-append b'<' match_kyrux go_param kind (String.◌∷◌ ">" rest) (suc 0),
      )
      refl

convert_pattern-written :
    (ps : List Segment) → All IsWritable ps → convert_pattern (written ps) ≡ compiled ps
unfolding convert_pattern written compiled replace_from
convert_pattern-written [] h = refl
convert_pattern-written (literal c ∷ ps) h =
    rw (h.0.0, replace_from) (ap (λ s. String.◌∷◌ c s) (convert_pattern-written ps h.1))
convert_pattern-written (param name kind ∷ ps) h =
    let found : Found = record { name = name; kind = kind; rest = written ps } in
    replace_from-found b'<' match_kyrux go_param "<" (kyrux_text name kind (written ps)) found refl
      (match_kyrux-found name kind (written ps) h.0.0 h.0.1)
    ∙ ap (λ s. go_param found <> s)
        (skip-kyrux name kind (written ps) ∙ convert_pattern-written ps h.1)
    ∙ go_param-text name kind (written ps) (compiled ps)

names_from-param :
    (name kind rest : String)
    → IsName name
    → names_from 0 (go_text name kind rest) ≡ name ∷ names_from 0 rest
unfolding names_from text_size
names_from-param name kind rest n = elim (Bool-cases (str_eq kind "path")) [
  | inl e ↦
      let far : text_size (name <> path_text rest) - text_size rest ≡ text_size name + 4 =
        omega (arith, text_size-append name (path_text rest)) in
      let found : Found = record { name = name; kind = "..."; rest = rest } in
      rw e (
        names_from-found (name <> path_text rest) found (match_go-found_path name rest n)
        ∙ ap (λ k. name ∷ names_from k (name <> path_text rest)) far
        ∙ ap (λ l. name ∷ l) (names_from-append name (path_text rest) 4))
  | inr e ↦
      let far : text_size (name <> String.◌∷◌ "}" rest) - text_size rest ≡ text_size name + 1 =
        omega (arith, text_size-append name (String.◌∷◌ "}" rest)) in
      let found : Found = record { name = name; kind = ""; rest = rest } in
      rw e (
        names_from-found (name <> String.◌∷◌ "}" rest) found (match_go-found name rest n)
        ∙ ap (λ k. name ∷ names_from k (name <> String.◌∷◌ "}" rest)) far
        ∙ ap (λ l. name ∷ l) (names_from-append name (String.◌∷◌ "}" rest) 1))
]

end_nameless : names_from 0 "{$}" ≡ []
unfolding names_from match_go starts_name is_name_start is_alpha
end_nameless = refl

-- The compiled pattern, with what normalize puts at its end.
names_from-compiled :
    (ps : List Segment) (end : String)
    → names_from 0 end ≡ []
    → All IsWritable ps
    → names_from 0 (compiled ps <> end) ≡ names ps
unfolding names_from compiled names text_size
names_from-compiled [] end e h = rw (nil-append end) e
names_from-compiled (literal c ∷ ps) end e h =
    rw (cons-append c (compiled ps) end)
      (names_from-literal c (compiled ps <> end) h.0.1 ∙ names_from-compiled ps end e h.1)
names_from-compiled (param name kind ∷ ps) end e h =
    ap (names_from 0) (go_text-append name kind (compiled ps) end)
    ∙ names_from-param name kind (compiled ps <> end) h.0.0
    ∙ ap (λ l. name ∷ l) (names_from-compiled ps end e h.1)

-- Neither what convertPattern makes of a pattern nor the end that normalize adds changes the
-- parameters: for a pattern written with characters that stand for themselves, and parameters
-- <name:type>, convertPattern gives the pattern with {name}, or {name...} where the type is path,
-- and extractParamNames reads from it, normalized, the names in their order.
pub extract_param_names-written :
    (ps : List Segment)
    → All IsWritable ps
    → (convert_pattern (written ps) ≡ compiled ps)
      × (extract_param_names (normalize (convert_pattern (written ps))) ≡ names ps)
unfolding extract_param_names normalize
extract_param_names-written ps h =
    let converted = convert_pattern-written ps h in
    (
      converted,
      ap (λ s. names_from 0 (normalize s)) converted
          ∙ (elim (Bool-cases (has_suffix "/" (compiled ps))) [
            | inl e ↦ rw e (names_from-compiled ps "{$}" end_nameless h)
            | inr e ↦ rw e (
                ap (names_from 0) (sym (append-nil (compiled ps)))
                ∙ names_from-compiled ps "" refl h)
          ]),
    )
