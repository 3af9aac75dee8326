-- ===== src/Migrate/Texts.antt =====
-- The texts of migrations (core/database/migrate/migrate.go: SplitMigration, isComment,
-- extractTableNames) and the statements on the table of recorded names. strings.ToUpper is a table
-- of characters that keeps the length of a text.
use Prim.Native.Char.{Char, code}
use framework_kyrux.Prelude.{
  ℕ, zero, suc, ◌+◌, String, Bool, true, false, List, [], ◌∷◌, Option, none, some, ◌==◌, leb, ◌&&◌,
  ◌||◌, if◌then◌else◌, join,
}
use framework_kyrux.Prelude.Texts.{split_at, has_prefix, trim, is_empty_text}
use framework_kyrux.Orm.Rewrite.{is_pg}

-- A line is "-- down", but for the case of its letters.
lower_ascii : ℕ → ℕ
lower_ascii c = if leb b'A' c && leb c b'Z' then c + 32 else c

same_lower : String → String → Bool
unfolding lower_ascii
same_lower String.[] String.[] = true
same_lower (String.◌∷◌ d ds) (String.◌∷◌ c cs) =
    let rest = same_lower ds cs in code d == lower_ascii (code c) && rest
same_lower _ _ = false

unfoldable pub is_down : String → Bool
unfolding same_lower
is_down line = same_lower "-- down" (trim line)

-- The lines of the two sections; `in_down` says in which the first line is.
unfoldable pub split_lines : Bool → List String → List String × List String
unfolding is_down
split_lines in_down [] = ([], [])
split_lines in_down (l ∷ ls) =
    let rest = split_lines in_down ls in
    let down = split_lines true ls in
    if is_down l then down else if in_down then (rest.0, l ∷ rest.1) else (l ∷ rest.0, rest.1)

-- SplitMigration
unfoldable pub split_migration : String → String × String
unfolding split_lines
split_migration content =
    let lines = split_lines false (split_at b'\n' content) in (join "\n" lines.0, join "\n" lines.1)

unfoldable pub all_comments : List String → Bool
all_comments [] = true
all_comments (l ∷ ls) =
    let rest = all_comments ls in
    if is_empty_text (trim l) || has_prefix "--" (trim l) then rest else false

-- isComment
unfoldable pub is_comment : String → Bool
unfolding all_comments
is_comment s = all_comments (split_at b'\n' s)

upper_text : (Char → Char) → String → String
upper_text to_upper String.[] = String.[]
upper_text to_upper (String.◌∷◌ c s) = String.◌∷◌ (to_upper c) (upper_text to_upper s)

-- strings.IndexAny of " (\n": the text before the first of these, if there is one.
unfoldable pub before_end : String → Option String
before_end String.[] = none
before_end (String.◌∷◌ c s) =
    let rest = before_end s in
    if code c == b' ' || code c == b'(' || code c == b'\n'
    then some ""
    else (elim rest [ none ↦ none | some t ↦ some (String.◌∷◌ c t) ])

-- What follows a first dot; the text itself where there is none.
unfoldable pub after_dot : String → Option String
after_dot String.[] = none
after_dot (String.◌∷◌ c s) = let rest = after_dot s in if code c == b'.' then some s else rest

unfoldable pub drop_chars : ℕ → String → String
drop_chars zero s = s
drop_chars (suc n) String.[] = String.[]
drop_chars (suc n) (String.◌∷◌ c s) = drop_chars n s

-- The table that a text after CREATE TABLE names.
unfoldable pub table_name : (Char → Char) → String → Option String
unfolding upper_text before_end after_dot drop_chars
table_name to_upper s =
    let trimmed = trim s in
    let named =
      if has_prefix "IF NOT EXISTS" (upper_text to_upper trimmed)
      then trim (drop_chars 13 trimmed)
      else trimmed in
    elim (before_end named) [
      | none ↦ none
      | some t ↦
          if is_empty_text t then none else (elim (after_dot t) [ none ↦ some t | some u ↦ some u ])
    ]

-- The loop of extractTableNames; `skip` characters are passed first. `none` is the panic of a slice
-- that begins after the end of the text.
unfoldable pub tables_from : (Char → Char) → ℕ → String → Option (List String)
unfolding table_name upper_text drop_chars
tables_from to_upper zero String.[] = some []
tables_from to_upper (suc skip) String.[] = none
tables_from to_upper (suc skip) (String.◌∷◌ c s) = tables_from to_upper skip s
tables_from to_upper zero (String.◌∷◌ c s) =
    let plain = tables_from to_upper zero s in
    let rest = tables_from to_upper 12 s in
    if has_prefix "CREATE TABLE" (upper_text to_upper (String.◌∷◌ c s))
    then (elim (table_name to_upper (drop_chars 11 s)) [
      | none ↦ rest
      | some t ↦ elim rest [ none ↦ none | some ts ↦ some (t ∷ ts) ]
    ])
    else plain

-- extractTableNames
unfoldable pub extract_table_names : (Char → Char) → String → Option (List String)
unfolding tables_from
extract_table_names to_upper sql = tables_from to_upper 0 sql

unfoldable pub create_table_text : String → String
create_table_text driver =
    if is_pg driver
    then "CREATE TABLE IF NOT EXISTS kyrux_migrations (\n\t\t\tid         BIGSERIAL PRIMARY KEY,\n\t\t\tname       VARCHAR(255) NOT NULL UNIQUE,\n\t\t\tapplied_at TIMESTAMPTZ  NOT NULL DEFAULT NOW()\n\t\t)"
    else "CREATE TABLE IF NOT EXISTS kyrux_migrations (\n\t\t\tid         INTEGER PRIMARY KEY AUTOINCREMENT,\n\t\t\tname       VARCHAR(255) NOT NULL UNIQUE,\n\t\t\tapplied_at DATETIME     NOT NULL DEFAULT CURRENT_TIMESTAMP\n\t\t)"

unfoldable pub record_text : String → String
record_text driver =
    if is_pg driver
    then "INSERT INTO kyrux_migrations (name) VALUES ($1)"
    else "INSERT INTO kyrux_migrations (name) VALUES (?)"

unfoldable pub unrecord_text : String → String
unrecord_text driver =
    if is_pg driver
    then "DELETE FROM kyrux_migrations WHERE name = $1"
    else "DELETE FROM kyrux_migrations WHERE name = ?"
