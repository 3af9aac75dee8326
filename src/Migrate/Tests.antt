-- ===== src/Migrate/Tests.antt =====
-- Runs of migrations on a database that keeps the recorded names, and the theorem at one.
use Prim.Native.Char.{Char, code}
use framework_kyrux.Prelude.{
  ◌≡◌, refl, sym, subst, inl, inr, String, Bool, true, false, List, [], ◌∷◌, none, some, arith,
  ◌||◌, eq_iff, Bool-cases, is_space, if◌then◌else◌, ◌==◌,
}
use framework_kyrux.Prelude.Texts.{
  split_at, strip_prefix, trim, trim_start, trim_end, is_empty_text,
}
use framework_kyrux.Orm.Statements.{sort_texts}
use framework_kyrux.Migrate.Texts.{
  split_migration, split_lines, is_down, extract_table_names, tables_from, table_name, before_end,
  after_dot, drop_chars, is_comment, all_comments,
}
use framework_kyrux.Migrate.{
  Database, Directory, exec_each, exec_sql, apply_up, record_name, apply_file, is_applied,
  run_files, run_migrations,
}
use framework_kyrux.Migrate.Runs.{IsSound, run_migrations_again}

-- Capitals of the letters that these tests need.
abbrev to_upper : Char → Char
to_upper c =
    if code c == b'c'
    then "C"
    else if code c == b'r'
    then "R"
    else if code c == b'e'
    then "E"
    else c

-- A text that ends in CREATE TABLE: the slice after it begins after its end.
slice_panics : extract_table_names to_upper "-- CREATE TABLE" ≡ none
unfolding extract_table_names tables_from table_name before_end drop_chars strip_prefix trim
    trim_start trim_end is_space
slice_panics = refl

table_found :
    extract_table_names to_upper "CREATE TABLE IF NOT EXISTS public.users (id INT)"
    ≡ some ("users" ∷ [])
unfolding extract_table_names tables_from table_name before_end after_dot drop_chars strip_prefix
    trim trim_start trim_end is_space
table_found = refl

sections_found : split_migration "A;\n -- DOWN \nB;" ≡ ("A;", "B;")
unfolding split_migration split_lines is_down split_at trim trim_start trim_end is_space
sections_found = refl

-- A database whose state is the recorded names; a statement with an argument records it.
abbrev exec_on : String → List String → List String → List String × Bool
exec_on sql [] db = (db, true)
exec_on sql (name ∷ _) db = (name ∷ db, true)

abbrev base : Database (List String)
base = record { exec = exec_on; has_table = λ t db. false; recorded = λ db. some db }

abbrev dir : Directory
dir = record { names = some ("2.sql" ∷ "1.sql" ∷ []); read = λ name. some "SELECT 1;" }

first_run : run_migrations to_upper base "sqlite" dir [] ≡ ("2.sql" ∷ "1.sql" ∷ [], none)
unfolding run_migrations run_files apply_file apply_up record_name exec_sql exec_each is_applied
    is_comment all_comments split_migration split_lines is_down split_at trim trim_start trim_end
    is_space extract_table_names tables_from table_name strip_prefix sort_texts
first_run = refl

exec_each-same : (ss db : List String) → (exec_each to_upper base "sqlite" ss db).0 ≡ db
unfolding exec_each
exec_each-same [] db = refl
exec_each-same (s ∷ ss) db = elim (Bool-cases (is_empty_text (trim s) || is_comment (trim s))) [
  | inl e ↦ rw (e, exec_each) (exec_each-same ss db)
  | inr e ↦ rw (e, exec_each) (exec_each-same ss db)
]

is_applied-more :
    (k name : String) (names : List String)
    → is_applied k names ≡ true
    → is_applied k (name ∷ names) ≡ true
unfolding is_applied
is_applied-more k name names h = ground arith

dir-IsSound : IsSound to_upper base "sqlite" dir
unfolding exec_sql is_applied
dir-IsSound = record {
  keeps_up = λ name content db r k was.
      subst (λ d. (names : List String) × (some d ≡ some names) × (is_applied k names ≡ true))
        (sym (exec_each-same (split_at b';' (split_migration content).0) db)) was;
  keeps_create = λ db k was. was;
  keeps_record = λ name db k was. (
    name ∷ db,
    refl,
    is_applied-more k name db
        (subst (λ l. is_applied k l ≡ true) (same_names was.0 db (sym was.1)) was.2),
  );
  records = λ name db r. (name ∷ db, refl, ground (arith, eq_iff name name));
}
  where
    same_names : (ms db : List String) → some ms ≡ some db → ms ≡ db
    same_names ms db h = ground arith

run_migrations_again_example :
    run_migrations to_upper base "sqlite" dir ("2.sql" ∷ "1.sql" ∷ [])
    ≡ ("2.sql" ∷ "1.sql" ∷ [], none)
run_migrations_again_example =
    run_migrations_again to_upper base "sqlite" dir ("2.sql" ∷ "1.sql" ∷ []) []
      ("2.sql" ∷ "1.sql" ∷ []) [] ("2.sql" ∷ "1.sql" ∷ []) dir-IsSound refl refl refl first_run refl
      refl
