-- ===== src/Environment/Tests.antt =====
-- A small .env file, and the theorem at it.
use framework_kyrux.Prelude.{◌≡◌, refl, String, List, [], ◌∷◌, map, some, is_space, dec_text}
use framework_kyrux.Prelude.Dict.{lookup, insert}
use framework_kyrux.Prelude.Texts.{cut, strip_prefix, trim, trim_start, trim_end}
use framework_kyrux.Environment.{
  Environment, count_byte, opening, before_comment, without_comment, is_skipped, add_value,
  add_pending, read_line, read_more, load_lines, load, prefix_of, merge_missing, keep_pending,
  blocks_from, get_blocks,
}
use framework_kyrux.Environment.Blocks.{values_of, get_blocks-values_of}

abbrev lines : List String
lines =
    "# databases" ∷ "DB_ENABLED = true # yes" ∷ "DB_NAME=main" ∷ "DB_OPTIONS={" ∷ "  \"a\": {}"
    ∷ "}" ∷ "DB_NAME=logs" ∷ []

abbrev loaded : Environment
loaded = record {
  loaded = ("DB_ENABLED", "true") ∷ ("DB_NAME", "main") ∷ ("DB_OPTIONS", "{\"a\": {}}") ∷ [];
  raw_lines = "DB_ENABLED=true" ∷ "DB_NAME=main" ∷ "DB_OPTIONS={\"a\": {}}" ∷ "DB_NAME=logs" ∷ [];
}

lines_loaded : load (λ key. "") lines (record { loaded = []; raw_lines = [] }) ≡ loaded
unfolding load load_lines read_line read_more add_pending add_value is_skipped without_comment
    before_comment opening count_byte cut strip_prefix trim trim_start trim_end is_space lookup
    insert dec_text
lines_loaded = refl

blocks_found :
    get_blocks "DB_NAME" loaded
    ≡ (("DB_NAME", "main") ∷ ("DB_ENABLED", "true") ∷ ("DB_OPTIONS", "{\"a\": {}}") ∷ [])
      ∷ (("DB_NAME", "logs") ∷ [])
      ∷ []
unfolding get_blocks blocks_from prefix_of merge_missing keep_pending cut strip_prefix lookup insert
    dec_text
blocks_found = refl

get_blocks-values_of_example :
    map (λ block. lookup "DB_NAME" block) (get_blocks "DB_NAME" loaded)
    ≡ some "main" ∷ some "logs" ∷ []
unfolding values_of cut
get_blocks-values_of_example = get_blocks-values_of "DB_NAME" loaded
