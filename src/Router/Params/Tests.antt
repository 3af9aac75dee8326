-- ===== src/Router/Params/Tests.antt =====
-- Patterns and what is made of them, and the theorem at one.
use framework_kyrux.Prelude.{◌≡◌, refl, List, [], ◌∷◌}
use framework_kyrux.Prelude.Texts.{strip_prefix, has_suffix, cut}
use framework_kyrux.Router.Params.{
  is_alpha, is_name_start, is_name_rest, span, starts_name, match_go, text_size, replace_from,
  convert_pattern, extract_param_names, shown_param, trim_suffix, display_path, normalize,
  contains_text, path_of, slash_alternate,
}
use framework_kyrux.Router.Params.Patterns.{Segment, literal, param, written, compiled, names}
use framework_kyrux.Router.Params.Conversion.{extract_param_names-written}

display_path_file : display_path "GET /u/{id}/{rest...}" ≡ "GET /u/<id>/<rest:path>"
unfolding display_path replace_from trim_suffix match_go shown_param span starts_name is_name_rest
    is_name_start is_alpha strip_prefix text_size
display_path_file = refl

slash_alternate_root : slash_alternate "GET /{$}" ≡ ""
unfolding slash_alternate contains_text trim_suffix path_of has_suffix strip_prefix cut
slash_alternate_root = refl

slash_alternate_users : slash_alternate "GET /users/{$}" ≡ "GET /users"
unfolding slash_alternate contains_text trim_suffix path_of has_suffix strip_prefix cut
slash_alternate_users = refl

-- The pattern "/<id:int>/".
abbrev user : List Segment
user = literal "/" ∷ param "id" "int" ∷ literal "/" ∷ []

extract_param_names-written_example :
    (convert_pattern "/<id:int>/" ≡ "/{id}/")
    × (extract_param_names (normalize (convert_pattern "/<id:int>/")) ≡ "id" ∷ [])
unfolding written compiled names starts_name is_name_rest is_name_start is_alpha
extract_param_names-written_example = extract_param_names-written user (
  (refl, refl),
  (
    (
      record { starts = refl; consists = (refl, (refl, tt)) },
      record { some_letter = refl; letters = (refl, (refl, (refl, tt))) },
    ),
    ((refl, refl), tt),
  ),
)
