-- ===== src/Orm/Insert/Tests.antt =====
-- Runs of INSERT on a small model, and the theorems at these rows.
use framework_kyrux.Prelude.{
  ℕ, ◌≤◌, ◌≡◌, refl, String, Bool, true, false, List, [], ◌∷◌, Option, some, length, All, Result,
  ok, ◌<>◌, ◌==◌, if◌then◌else◌, ◌++◌, ltb,
}
use framework_kyrux.Orm.Marks.{marks, count_marks}
use framework_kyrux.Orm.Rewrite.{rewrite_placeholders, is_pg}
use framework_kyrux.Orm.Model.{Field, ModelMeta, value, text, OrmError}
use framework_kyrux.Orm.Statements.{Statement, stored}
use framework_kyrux.Orm.Query.{pk_column}
use framework_kyrux.Orm.Query.Balance.{IsPlainMeta}
use framework_kyrux.Orm.Select.{qualified_table}
use framework_kyrux.Orm.Tests.{id_field, secret_field}
use framework_kyrux.Orm.Insert.{
  Cell, string_cell, shaped_cell, plain_int, sized, insert_chunk, chunks_of, create_chunks,
  not_sent, chunk_values, row_values, cell_values, with_nano_id, set_field, is_zero_value,
  is_zero_shape, insert_statement, insert_text, returning, non_pk_cols,
}
use framework_kyrux.Orm.Insert.Chunks.{together, chunks_of_lem}
use framework_kyrux.Orm.Insert.Rows.{IsPlainField}
use framework_kyrux.Orm.Insert.Balance.{insert_chunk_balanced}

abbrev token_field : Field
token_field = record id_field {
  name = "Token";
  column = "token";
  is_pk = false;
  is_nano_id = true;
  go_index = 1;
}

abbrev level_field : Field
level_field = record id_field {
  name = "Level";
  column = "level";
  is_pk = false;
  default_sql = "3";
  go_index = 2;
}

abbrev key_field : Field
key_field = record secret_field { go_index = 3; default_sql = "" }

abbrev members : ModelMeta
members = record {
  table = "members";
  fields = id_field ∷ token_field ∷ level_field ∷ key_field ∷ [];
  pk_field = some id_field;
  col_to_field = [];
}

abbrev argon : String → Option String
argon s = some ("$argon2id$" <> s)

abbrev draws : ℕ → Field → String
draws i f = "drawn"

-- A member with a level 0, whose type is int or another.
abbrev member : Bool → ℕ → Cell ℕ
member is_int i =
    if i == 2
    then shaped_cell (if is_int then plain_int 0 else sized 0) 0
    else if i == 3
    then string_cell "pw"
    else string_cell ""

abbrev inserted : String → List (ℕ → Cell ℕ) → Result OrmError (Statement ℕ)
inserted driver rows = insert_chunk argon argon driver "" members draws 0 rows

-- The statement for a member of each kind: a default stands in the first row only.
abbrev sent : Statement ℕ
sent = record {
  sql = "INSERT INTO members (token, level, secret) VALUES ($1, 3, $2), ($3, $4, $5) RETURNING id";
  args = text "drawn" ∷ text "$argon2id$pw" ∷ text "drawn" ∷ value 0 ∷ text "$argon2id$pw" ∷ [];
}

two_members : inserted "pgx" (member true ∷ member false ∷ []) ≡ ok sent
unfolding insert_chunk chunk_values row_values cell_values with_nano_id set_field is_zero_value
    is_zero_shape insert_statement insert_text returning non_pk_cols rewrite_placeholders stored
    qualified_table is_pg
two_members = refl

members-IsPlainMeta : IsPlainMeta members
unfolding count_marks pk_column
members-IsPlainMeta = record { table_plain = refl; pk_plain = refl }

members-IsPlainField : All IsPlainField members.fields
unfolding count_marks
members-IsPlainField = (
  record { column_plain = refl; default_plain = refl },
  (
    record { column_plain = refl; default_plain = refl },
    (
      record { column_plain = refl; default_plain = refl },
      (record { column_plain = refl; default_plain = refl }, tt),
    ),
  ),
)

insert_chunk_balanced_example :
    (sql : String) × (sent.sql ≡ rewrite_placeholders "pgx" sql) × (marks sql ≡ 5) × (5 ≤ 8)
unfolding count_marks
insert_chunk_balanced_example =
    insert_chunk_balanced argon argon "pgx" "" members draws 0 (member true ∷ member false ∷ [])
      sent refl members-IsPlainMeta members-IsPlainField two_members

abbrev some_rows : List ℕ
some_rows = 5 ∷ 6 ∷ 7 ∷ []

chunks_of_lem_example :
    (together (chunks_of 3 some_rows) ≡ some_rows)
    × All (λ chunk. (1 ≤ length chunk) × (length chunk ≤ 500)) (chunks_of 3 some_rows)
chunks_of_lem_example = chunks_of_lem some_rows

-- A database that logs what it is sent, and refuses the second statement.
abbrev log_one : List (Statement ℕ) → Statement ℕ → List (Statement ℕ) × Bool
log_one log st = (log ++ st ∷ [], ltb (length log) 1)

stops_at_failure :
    create_chunks argon argon log_one "mysql" "" members draws 0 []
      ((member true ∷ []) ∷ (member true ∷ []) ∷ (member true ∷ []) ∷ [])
    ≡ (
      (let st : Statement ℕ = record {
        sql = "INSERT INTO members (token, level, secret) VALUES (?, 3, ?)";
        args = text "drawn" ∷ text "$argon2id$pw" ∷ [];
      } in
          st ∷ st ∷ []),
      some not_sent,
    )
unfolding create_chunks insert_chunk chunk_values row_values cell_values with_nano_id set_field
    is_zero_value is_zero_shape insert_statement insert_text returning non_pk_cols
    rewrite_placeholders stored qualified_table is_pg
stops_at_failure = refl
