-- ===== src/Migrate/Runs.antt =====
-- A run of the migrations, and a second one after it.
use Prim.Native.Char.{Char}
use framework_kyrux.Prelude.{
  ◌≡◌, refl, sym, ap, ◌∙◌, inl, inr, String, true, false, List, [], ◌∷◌, Option, none, some, arith,
  subst, All, Bool-cases,
}
use framework_kyrux.Orm.Statements.{sort_texts}
use framework_kyrux.Migrate.Texts.{
  create_table_text, record_text, split_migration, extract_table_names,
}
use framework_kyrux.Migrate.{
  Database, Directory, MigrateError, exec_sql, all_exist, apply_up, record_name, apply_file,
  is_applied, run_files, run_migrations,
}

module _ {ℓ} {D : Type ℓ} (to_upper : Char → Char) (base : Database D) (driver : String) where
  -- A name is recorded in the control table.
  abbrev pub IsRecorded : String → D → Type 0
  IsRecorded k db =
      (names : List String) × (base.recorded db ≡ some names) × (is_applied k names ≡ true)

  -- No record is lost.
  abbrev pub KeepsRecords : D → D → Type 0
  KeepsRecords db after = (k : String) → IsRecorded k db → IsRecorded k after

  -- What a run relies on: a row that is inserted into the control table is there and takes no other
  -- away, and neither the creation of the table, which exists by then, nor the migrations of the
  -- directory take one away.
  pub record IsSound (dir : Directory) : Type ℓ where
    pub keeps_up :
        (name content : String) (db : D)
        → dir.read name ≡ some content
        → KeepsRecords db (exec_sql to_upper base driver (split_migration content).0 db).0
    pub keeps_create : (db : D) → KeepsRecords db (base.exec (create_table_text driver) [] db).0
    pub keeps_record :
        (name : String) (db : D) → KeepsRecords db (base.exec (record_text driver) (name ∷ []) db).0
    pub records :
        (name : String) (db : D)
        → (base.exec (record_text driver) (name ∷ []) db).1 ≡ true
        → IsRecorded name (base.exec (record_text driver) (name ∷ []) db).0

  apply_up-KeepsRecords :
      (name up : String) (db : D)
      → KeepsRecords db (exec_sql to_upper base driver up db).0
      → KeepsRecords db (apply_up to_upper base driver name up db).0
  unfolding apply_up
  apply_up-KeepsRecords name up db h = split (extract_table_names to_upper up) refl
    where
      split :
          (o : Option (List String))
          → extract_table_names to_upper up ≡ o
          → KeepsRecords db (apply_up to_upper base driver name up db).0
      split none e = rw (e, apply_up) (λ k r. r)
      split (some []) e = rw (e, apply_up) h
      split (some (t ∷ ts)) e = elim (Bool-cases (all_exist to_upper base driver (t ∷ ts) db)) [
        | inl x ↦ rw (e, x, apply_up) (λ k r. r)
        | inr x ↦ rw (e, x, apply_up) h
      ]

  -- What a file without an error did: it kept the records and recorded its name.
  apply_file-IsRecorded :
      (dir : Directory) (name : String) (db after : D)
      → IsSound dir
      → apply_file to_upper base driver dir name db ≡ (after, none)
      → KeepsRecords db after × IsRecorded name after
  unfolding apply_file record_name
  apply_file-IsRecorded dir name db after sound h = read (dir.read name) refl
    where
      Holds : D → Type 0
      Holds d = KeepsRecords db d × IsRecorded name d

      noted :
          (content : String)
          → dir.read name ≡ some content
          → (apply_up to_upper base driver name (split_migration content).0 db).1 ≡ none
          → Holds after
      noted content r a =
          let up = (apply_up to_upper base driver name (split_migration content).0 db).0 in
          let kept =
            apply_up-KeepsRecords name (split_migration content).0 db
              (sound.keeps_up name content db r) in
          let ran = rw (r, a, apply_file) at h in
          elim (Bool-cases (base.exec (record_text driver) (name ∷ []) up).1) [
            | inl x ↦
                subst Holds (ap (λ p. p.0) ran)
                  (λ k was. sound.keeps_record name up k (kept k was), sound.records name up x)
            | inr x ↦ let failed = ap (λ p. p.1) ran in absurd (ground arith)
          ]

      applied :
          (content : String)
          → dir.read name ≡ some content
          → (o : Option MigrateError)
          → (apply_up to_upper base driver name (split_migration content).0 db).1 ≡ o
          → Holds after
      applied content r none a = noted content r a
      applied content r (some e) a =
          let failed = ap (λ p. p.1) (rw (r, a, apply_file) at h) in absurd (ground arith)

      read : (o : Option String) → dir.read name ≡ o → Holds after
      read none r = let failed = ap (λ p. p.1) (rw (r, apply_file) at h) in absurd (ground arith)
      read (some content) r = applied content r _ refl

  -- A loop without an error kept the records and recorded every name.
  run_files-IsRecorded :
      (dir : Directory) (known names : List String) (db after : D)
      → IsSound dir
      → ((k : String) → is_applied k known ≡ true → IsRecorded k db)
      → run_files to_upper base driver dir known names db ≡ (after, none)
      → KeepsRecords db after × All (λ k. IsRecorded k after) names
  unfolding run_files
  run_files-IsRecorded dir known [] db after sound was h =
      subst (λ d. KeepsRecords db d × All (λ k. IsRecorded k d) []) (ap (λ p. p.0) h)
        ((λ k r. r), tt)
  run_files-IsRecorded dir known (name ∷ names) db after sound was h =
      elim (Bool-cases (is_applied name known)) [
        | inl a ↦
            let (kept, all) =
              run_files-IsRecorded dir known names db after sound was (rw (a, run_files) at h) in
            (kept, (kept name (was name a), all))
        | inr a ↦
            applied (λ mid seen. run_files-IsRecorded dir known names mid after sound seen) a
              (apply_file to_upper base driver dir name db) refl
      ]
    where
      applied :
          ((mid : D)
            → ((k : String) → is_applied k known ≡ true → IsRecorded k mid)
            → run_files to_upper base driver dir known names mid ≡ (after, none)
            → KeepsRecords mid after × All (λ k. IsRecorded k after) names)
          → is_applied name known ≡ false
          → (p : D × Option MigrateError) → apply_file to_upper base driver dir name db ≡ p
          → KeepsRecords db after × All (λ k. IsRecorded k after) (name ∷ names)
      applied again a (mid, some e) p =
          let failed = ap (λ q. q.1) (rw (a, p, run_files) at h) in absurd (ground arith)
      applied again a (mid, none) p =
          let (kept, noted) = apply_file-IsRecorded dir name db mid sound p in
          let (rest, all) = again mid (λ k r. kept k (was k r)) (rw (a, p, run_files, p) at h) in
          ((λ k r. rest k (kept k r)), (rest name noted, all))

  -- Files that are all applied.
  run_files-applied :
      (dir : Directory) (known names : List String) (db : D)
      → All (λ k. is_applied k known ≡ true) names
      → run_files to_upper base driver dir known names db ≡ (db, none)
  unfolding run_files
  run_files-applied dir known [] db h = refl
  run_files-applied dir known (name ∷ names) db h =
      rw (h.0, run_files) (run_files-applied dir known names db h.1)

  applied_by :
      (known names : List String) (db : D)
      → base.recorded db ≡ some known
      → All (λ k. IsRecorded k db) names
      → All (λ k. is_applied k known ≡ true) names
  applied_by known [] db r h = tt
  applied_by known (name ∷ names) db r h =
      let (ms, same, found) = h.0 in
      let all_known : ms ≡ known = ground arith in
      (subst (λ l. is_applied name l ≡ true) all_known found, applied_by known names db r h.1)

  -- The files of a run that found its control table and the names in it.
  run_migrations-files :
      (dir : Directory) (names known : List String) (db : D)
      → dir.names ≡ some names
      → (base.exec (create_table_text driver) [] db).1 ≡ true
      → base.recorded (base.exec (create_table_text driver) [] db).0 ≡ some known
      → run_migrations to_upper base driver dir db
        ≡ run_files to_upper base driver dir known
            (sort_texts names)
            (base.exec (create_table_text driver) [] db).0
  unfolding run_migrations apply_file
  run_migrations-files dir names known db n made r = rw (made, n, r, run_migrations) refl

  -- A run that found its control table and met no error is done: a second run, where the control
  -- table can be read again, executes the CREATE TABLE IF NOT EXISTS of the control table and
  -- nothing else, and meets no error. The database is taken to keep the names that are recorded.
  pub run_migrations_again :
      (dir : Directory) (names known later : List String) (db after : D)
      → IsSound dir
      → dir.names ≡ some names
      → (base.exec (create_table_text driver) [] db).1 ≡ true
      → base.recorded (base.exec (create_table_text driver) [] db).0 ≡ some known
      → run_migrations to_upper base driver dir db ≡ (after, none)
      → (base.exec (create_table_text driver) [] after).1 ≡ true
      → base.recorded (base.exec (create_table_text driver) [] after).0 ≡ some later
      → run_migrations to_upper base driver dir after
        ≡ ((base.exec (create_table_text driver) [] after).0, none)
  run_migrations_again dir names known later db after sound n made r h made_again r_again =
      let ran = sym (run_migrations-files dir names known db n made r) ∙ h in
      let (kept, all) =
        run_files-IsRecorded dir known (sort_texts names) _ after sound (λ k a. (known, r, a))
          ran in
      run_migrations-files dir names later after n made_again r_again
      ∙ run_files-applied dir later (sort_texts names) _ (
          applied_by later (sort_texts names) _ r_again
            (All-kept after _ (sound.keeps_create after) (sort_texts names) all))
    where
      All-kept :
          (one two : D)
          → KeepsRecords one two
          → (ks : List String) → All (λ k. IsRecorded k one) ks
          → All (λ k. IsRecorded k two) ks
      All-kept one two h [] hs = tt
      All-kept one two h (k ∷ ks) hs = (h k hs.0, All-kept one two h ks hs.1)
