-- ===== src/Migrate.antt =====
-- Migrations of the database (core/database/migrate/migrate.go). The database is a state with the
-- statements that it executes and the questions that it answers, as parameters; the files of the
-- directory are names with contents.
pub mod Texts
pub mod Runs
pub mod Tests
use Prim.Native.Char.{Char, code}
use framework_kyrux.Prelude.{
  ℕ, zero, suc, ◌+◌, String, Bool, true, false, List, [], ◌∷◌, Option, none, some, ◌==◌, leb, ◌&&◌,
  ◌||◌, not, str_eq, if◌then◌else◌, ◌<>◌, join,
}
use framework_kyrux.Prelude.Texts.{split_at, strip_prefix, has_prefix, trim, is_empty_text}
use framework_kyrux.Orm.Rewrite.{is_pg}
use framework_kyrux.Orm.Statements.{sort_texts}
use framework_kyrux.Migrate.Texts.{
  split_migration, is_comment, extract_table_names, create_table_text, record_text, unrecord_text,
}

-- What the migrations ask of a database: a statement with its arguments and whether it succeeded,
-- whether a table exists, and the names that are recorded.
pub record Database {ℓ} (D : Type ℓ) : Type ℓ where
  pub exec : String → List String → D → D × Bool
  pub has_table : String → D → Bool
  pub recorded : D → Option (List String)

-- The directory: the names of its .sql files, and their contents
pub record Directory : Type 0 where
  pub names : Option (List String)
  pub read : String → Option String

pub data MigrateError : Type 0 where
  no_control_table no_files no_names panicked no_down : MigrateError
  unreadable not_executed not_recorded : String → MigrateError

unfoldable pub is_applied : String → List String → Bool
is_applied name [] = false
is_applied name (a ∷ applied) = str_eq a name || is_applied name applied

module _ {ℓ} {D : Type ℓ} (to_upper : Char → Char) (base : Database D) (driver : String) where
  -- The loop of execSQL.
  unfoldable pub exec_each : List String → D → D × Bool
  unfolding is_comment
  exec_each [] db = (db, true)
  exec_each (s ∷ ss) db =
      let skipped = exec_each ss db in
      let sent = base.exec (trim s) [] db in
      let rest = exec_each ss sent.0 in
      if is_empty_text (trim s) || is_comment (trim s)
      then skipped
      else if sent.1
      then rest
      else (sent.0, false)

  unfoldable pub exec_sql : String → D → D × Bool
  unfolding exec_each
  exec_sql content db = exec_each (split_at b';' content) db

  -- ExecDown
  unfoldable pub exec_down : String → D → D × Option MigrateError
  unfolding exec_sql split_migration
  exec_down content db =
      let down = trim (split_migration content).1 in
      if is_empty_text down
      then (db, some no_down)
      else (let sent = exec_sql down db in
          (sent.0, if sent.1 then none else some (not_executed "")))

  -- Unrecord
  unfoldable pub unrecord : String → D → D × Bool
  unfolding unrecord_text
  unrecord name db = base.exec (unrecord_text driver) (name ∷ []) db

  unfoldable pub all_exist : List String → D → Bool
  all_exist [] db = true
  all_exist (t ∷ ts) db = base.has_table t db && all_exist ts db

  -- A file that is not applied: its statements, unless all its tables exist.
  unfoldable pub apply_up : String → String → D → D × Option MigrateError
  unfolding all_exist exec_sql
  apply_up name up db = elim (extract_table_names to_upper up) [
    | none ↦ (db, some panicked)
    | some [] ↦
        (let sent = exec_sql up db in (sent.0, if sent.1 then none else some (not_executed name)))
    | some (t ∷ ts) ↦
        (let sent = exec_sql up db in
          if all_exist (t ∷ ts) db
          then (db, none)
          else (sent.0, if sent.1 then none else some (not_executed name)))
  ]

  unfoldable pub record_name : String → D → D × Bool
  unfolding record_text
  record_name name db = base.exec (record_text driver) (name ∷ []) db

  unfoldable pub apply_file : Directory → String → D → D × Option MigrateError
  unfolding apply_up record_name split_migration
  apply_file dir name db = elim (dir.read name) [
    | none ↦ (db, some (unreadable name))
    | some content ↦
        (let applied = apply_up name (split_migration content).0 db in
          let noted = record_name name applied.0 in
          elim applied.1 [
            | some e ↦ (applied.0, some e)
            | none ↦ (noted.0, if noted.1 then none else some (not_recorded name))
          ])
  ]

  -- The loop of Run, for the names that were applied before it.
  unfoldable pub run_files : Directory → List String → List String → D → D × Option MigrateError
  unfolding is_applied
  run_files dir applied [] db = (db, none)
  run_files dir applied (name ∷ names) db =
      let skipped = run_files dir applied names db in
      let here = apply_file dir name db in
      let rest = run_files dir applied names here.0 in
      if is_applied name applied
      then skipped
      else (elim here.1 [ some e ↦ (here.0, some e) | none ↦ rest ])

  -- Run
  unfoldable pub run_migrations : Directory → D → D × Option MigrateError
  unfolding create_table_text run_files
  run_migrations dir db =
      let made = base.exec (create_table_text driver) [] db in
      if not made.1 then (made.0, some no_control_table) else (elim dir.names [
        | none ↦ (made.0, some no_files)
        | some names ↦ elim (base.recorded made.0) [
          | none ↦ (made.0, some no_names)
          | some applied ↦ run_files dir applied (sort_texts names) made.0
        ]
      ])
