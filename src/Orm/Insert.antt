-- ===== src/Orm/Insert.antt =====
-- INSERT of one row and of many (core/orm/exec.go: nonPKCols, rowValues, createInto, createAllInto,
-- insertChunk, isZeroValue). The struct of a row is a function from the index of a field to its
-- value. The hash and the cipher, the drawn identifiers and the database are parameters.
pub mod Chunks
pub mod Balance
pub mod Rows
pub mod Tests
use framework_kyrux.Prelude.{
  ℕ, zero, suc, ◌+◌, String, Bool, true, false, List, [], ◌∷◌, ◌++◌, Option, none, some, ◌==◌, ◌&&◌,
  not, if◌then◌else◌, ◌<>◌, join, length, take, drop, str_eq, Result, ok, err,
}
use framework_kyrux.Orm.Rewrite.{is_pg, rewrite_placeholders}
use framework_kyrux.Orm.Model.{Field, ModelMeta, Arg, value, text, OrmError}
use framework_kyrux.Orm.Select.{qualified_table}
use framework_kyrux.Orm.Statements.{Statement, stored}

-- The types that isZeroValue names, with what it reads of the value; `plain_int` is int itself, and
-- `sized` is any other type of integers or floats.
pub data Shape : Type 0 where
  nil : Shape
  pointer : Bool → Shape
  plain_int sized : ℕ → Shape
  boolean : Bool → Shape
  bytes : ℕ → Shape
  other : Bool → Shape

-- The value of a field: a string, or a value of another shape. `pointer` and `other` hold whether
-- the value is nil or zero.
pub data Cell {ℓ} (A : Type ℓ) : Type ℓ where
  string_cell : String → Cell A
  shaped_cell : Shape → A → Cell A

-- `v == 0` compares an interface with an int, so no sized number is found to be zero.
unfoldable pub is_zero_shape : Shape → Bool
is_zero_shape nil = true
is_zero_shape (pointer is_nil) = is_nil
is_zero_shape (plain_int n) = n == 0
is_zero_shape (sized n) = false
is_zero_shape (boolean b) = not b
is_zero_shape (bytes n) = n == 0
is_zero_shape (other is_zero) = is_zero

abbrev pub bulk_chunk_size : ℕ
bulk_chunk_size = 500

unfoldable pub non_pk_cols : List Field → List String
non_pk_cols [] = []
non_pk_cols (f ∷ fs) = if f.is_pk then non_pk_cols fs else f.column ∷ non_pk_cols fs

module _ {ℓ} {A : Type ℓ} where
  unfoldable pub is_zero_value : Cell A → Bool
  unfolding is_zero_shape
  is_zero_value (string_cell s) = str_eq s ""
  is_zero_value (shaped_cell shape a) = is_zero_shape shape

  abbrev pub arg_of : Cell A → Arg A
  arg_of (string_cell s) = text s
  arg_of (shaped_cell shape a) = value a

  -- An empty nanoid field takes the drawn identifier.
  unfoldable pub with_nano_id : String → Field → Cell A → Cell A
  with_nano_id drawn f (string_cell s) =
      if f.is_nano_id && str_eq s "" then string_cell drawn else string_cell s
  with_nano_id drawn f (shaped_cell shape a) = shaped_cell shape a

  -- A struct with one field set.
  unfoldable pub set_field : ℕ → Cell A → (ℕ → Cell A) → ℕ → Cell A
  set_field i c row j = if i == j then c else row j

-- The placeholders and arguments of a row, and the struct with its identifiers written back
pub record RowValues {ℓ} (A : Type ℓ) : Type ℓ where
  pub phs : List String
  pub args : List (Arg A)
  pub row : ℕ → Cell A

-- The text and arguments of the rows of one INSERT, and their structs
pub record ChunkValues {ℓ} (A : Type ℓ) : Type ℓ where
  pub groups : List String
  pub args : List (Arg A)
  pub rows : List (ℕ → Cell A)

abbrev pub group : List String → String
group phs = "(" <> (join ", " phs <> ")")

unfoldable pub returning : String → ModelMeta → String
returning driver meta =
    if is_pg driver
    then (elim meta.pk_field [ none ↦ "" | some f ↦ " RETURNING " <> f.column ])
    else ""

unfoldable pub insert_text : String → String → ModelMeta → List String → String
unfolding returning
insert_text driver schema meta groups =
    "INSERT INTO "
    <> (qualified_table schema meta.table
        <> (" ("
            <> (join ", " (non_pk_cols meta.fields)
                <> (") VALUES " <> (join ", " groups <> returning driver meta)))))

unfoldable pub insert_statement {ℓ} :
    {A : Type ℓ} → String → String → ModelMeta → ChunkValues A → Statement A
insert_statement driver schema meta values = record {
  sql = rewrite_placeholders driver (insert_text driver schema meta values.groups);
  args = values.args;
}

module _ {ℓ} {A : Type ℓ} (hash encrypt : String → Option String) where
  -- One field of a row: its placeholder or default, and its argument.
  unfoldable pub cell_values : Field → Cell A → Result OrmError (String × List (Arg A))
  unfolding is_zero_value
  cell_values f c =
      if not (str_eq f.default_sql "") && is_zero_value c
      then ok (f.default_sql, [])
      else (elim (stored hash encrypt f (arg_of c)) [ err e ↦ err e | ok v ↦ ok ("?", v ∷ []) ])

  -- rowValues; `draw` gives the identifier that generateNanoID draws for a field.
  unfoldable pub row_values :
      (Field → String) → List Field → (ℕ → Cell A) → Result OrmError (RowValues A)
  unfolding cell_values with_nano_id set_field
  row_values draw [] row = ok (record { phs = []; args = []; row = row })
  row_values draw (f ∷ fs) row =
      let skipped = row_values draw fs row in
      let c = with_nano_id (draw f) f (row f.go_index) in
      let rest = row_values draw fs (set_field f.go_index c row) in
      if f.is_pk then skipped else (elim (cell_values f c) [
        | err e ↦ err e
        | ok p ↦ elim rest [
          | err e ↦ err e
          | ok r ↦ ok (record { phs = p.0 ∷ r.phs; args = p.1 ++ r.args; row = r.row })
        ]
      ])

  -- The loop of insertChunk; `draws` gives the identifiers of each row.
  unfoldable pub chunk_values :
      (ℕ → Field → String) → ℕ → List Field → List (ℕ → Cell A) → Result OrmError (ChunkValues A)
  unfolding row_values
  chunk_values draws i fs [] = ok (record { groups = []; args = []; rows = [] })
  chunk_values draws i fs (row ∷ rows) =
      let rest = chunk_values draws (suc i) fs rows in
      elim (row_values (draws i) fs row) [
        | err e ↦ err e
        | ok r ↦ elim rest [
          | err e ↦ err e
          | ok c ↦ ok (record {
            groups = group r.phs ∷ c.groups;
            args = r.args ++ c.args;
            rows = r.row ∷ c.rows;
          })
        ]
      ]

  -- The statement of createInto, and of insertChunk: `i` is the index of the first row.
  unfoldable pub insert_chunk :
      String
      → String
      → ModelMeta
      → (ℕ → Field → String)
      → ℕ
      → List (ℕ → Cell A)
      → Result OrmError (Statement A)
  insert_chunk driver schema meta draws i rows = elim (chunk_values draws i meta.fields rows) [
    | err e ↦ err e
    | ok values ↦ ok (insert_statement driver schema meta values)
  ]

-- The chunks of createAllInto, in at most `fuel` rounds.
unfoldable pub chunks_of {ℓ} : {B : Type ℓ} → ℕ → List B → List (List B)
chunks_of zero rows = []
chunks_of (suc fuel) [] = []
chunks_of (suc fuel) (row ∷ rows) =
    let rest = chunks_of fuel (drop bulk_chunk_size (row ∷ rows)) in
    take bulk_chunk_size (row ∷ rows) ∷ rest

-- What createAllInto did: its error, if it met one
pub data CreateError : Type 0 where
  refused : OrmError → CreateError
  not_sent : CreateError

module _ {ℓ κ} {A : Type ℓ} {D : Type κ} (hash encrypt : String → Option String)
    (send : D → Statement A → D × Bool) where
  -- The chunks, one after the other, until one fails.
  unfoldable pub create_chunks :
      String
      → String
      → ModelMeta
      → (ℕ → Field → String)
      → ℕ
      → D
      → List (List (ℕ → Cell A))
      → D × Option CreateError
  create_chunks driver schema meta draws i db [] = (db, none)
  create_chunks driver schema meta draws i db (chunk ∷ chunks) =
      elim (insert_chunk hash encrypt driver schema meta draws i chunk) [
        | err e ↦ (db, some (refused e))
        | ok statement ↦
            (let sent = send db statement in
              let rest = create_chunks driver schema meta draws (i + length chunk) sent.0 chunks in
              if sent.1 then rest else (sent.0, some not_sent))
      ]

  unfoldable pub create_all :
      String
      → String
      → ModelMeta
      → (ℕ → Field → String)
      → D
      → List (ℕ → Cell A)
      → D × Option CreateError
  create_all driver schema meta draws db rows =
      create_chunks driver schema meta draws 0 db (chunks_of (length rows) rows)
