-- ===== src/Environment.antt =====
-- The .env file (core/environment/environment.go: Load, Get, GetOr, GetBlocks). The lines of the
-- file and the environment of the process (os.Getenv) are arguments.
pub mod Blocks
pub mod Tests
use Prim.Native.Char.{Char, code}
use framework_kyrux.Prelude.{
  ℕ, ◌+◌, String, Bool, true, false, List, [], ◌∷◌, ◌++◌, Option, none, some, ◌==◌, ltb, ◌&&◌, ◌||◌,
  not, str_eq, if◌then◌else◌, ◌<>◌,
}
use framework_kyrux.Prelude.Dict.{Dict, lookup, insert}
use framework_kyrux.Prelude.Texts.{cut, has_prefix, trim, is_empty_text}

-- The variables `loaded` and `rawLines` of the package
pub record Environment : Type 0 where
  pub loaded : Dict String
  pub raw_lines : List String

-- A value in braces or brackets that is not complete: how many are open and closed so far.
pub record Pending : Type 0 where
  pub key : String
  pub value : String
  pub bracket : ℕ
  pub opened : ℕ
  pub closed : ℕ

unfoldable pub count_byte : ℕ → String → ℕ
count_byte b String.[] = 0
count_byte b (String.◌∷◌ c s) = let rest = count_byte b s in if code c == b then rest + 1 else rest

abbrev pub closing : ℕ → ℕ
closing bracket = if bracket == b'{' then b'}' else b']'

-- The first character, if it opens a JSON value.
unfoldable pub opening : String → Option ℕ
opening String.[] = none
opening (String.◌∷◌ c s) = if code c == b'{' || code c == b'[' then some (code c) else none

-- The value before " #", trimmed; the value itself where there is none.
unfoldable pub before_comment : String → Option String
before_comment String.[] = none
before_comment (String.◌∷◌ c s) =
    let rest = before_comment s in
    if has_prefix " #" (String.◌∷◌ c s)
    then some ""
    else (elim rest [ none ↦ none | some t ↦ some (String.◌∷◌ c t) ])

unfoldable pub without_comment : String → String
unfolding before_comment
without_comment value = elim (before_comment value) [ none ↦ value | some v ↦ trim v ]

unfoldable pub is_skipped : String → Bool
is_skipped line = is_empty_text line || has_prefix "#" line

module _ (getenv : String → String) where
  -- A key with its whole value.
  unfoldable pub add_value : String → String → Environment → Environment
  add_value key value env = record {
    raw_lines = env.raw_lines ++ (key <> ("=" <> value)) ∷ [];
    loaded = elim (lookup key env.loaded) [
      | some _ ↦ env.loaded
      | none ↦ insert key (if str_eq (getenv key) "" then value else getenv key) env.loaded
    ];
  }

  -- A value that may go on: it waits for the next lines where more is opened than closed.
  unfoldable pub add_pending : Pending → Environment → Option Pending × Environment
  unfolding add_value
  add_pending p env =
      if ltb p.closed p.opened then (some p, env) else (none, add_value p.key p.value env)

  -- A line where no value is open.
  unfoldable pub read_line : String → Environment → Option Pending × Environment
  unfolding is_skipped add_pending opening count_byte without_comment
  read_line line env = if is_skipped line then (none, env) else (elim (cut b'=' line) [
    | none ↦ (none, env)
    | some (k, v) ↦ elim (opening (trim v)) [
      | none ↦ (none, add_value (trim k) (without_comment (trim v)) env)
      | some bracket ↦
          add_pending
            (record {
              key = trim k;
              value = trim v;
              bracket = bracket;
              opened = count_byte bracket (trim v);
              closed = count_byte (closing bracket) (trim v);
            })
            env
    ]
  ])

  -- A line where a value is open.
  unfoldable pub read_more : Pending → String → Environment → Option Pending × Environment
  unfolding is_skipped add_pending count_byte
  read_more p line env =
      if is_skipped line
      then (some p, env)
      else add_pending
          (record p {
            value = p.value <> line;
            opened = p.opened + count_byte p.bracket line;
            closed = p.closed + count_byte (closing p.bracket) line;
          })
          env

  -- The loop of Load.
  unfoldable pub load_lines : Option Pending → List String → Environment → Environment
  unfolding read_line read_more add_value
  load_lines none [] env = env
  load_lines (some p) [] env = add_value p.key p.value env
  load_lines none (l ∷ ls) env = let read = read_line (trim l) env in load_lines read.0 ls read.1
  load_lines (some p) (l ∷ ls) env =
      let read = read_more p (trim l) env in load_lines read.0 ls read.1

  -- Load, for the lines of a file that was read.
  unfoldable pub load : List String → Environment → Environment
  unfolding load_lines
  load lines env = load_lines none lines (record env { raw_lines = [] })

  unfoldable pub get_env : String → Environment → String
  get_env key env = elim (lookup key env.loaded) [ some v ↦ v | none ↦ getenv key ]

  unfoldable pub get_or : String → String → Environment → String
  unfolding get_env
  get_or key fallback env = if str_eq (get_env key env) "" then fallback else get_env key env

-- The text up to a first `_` that is not the first character, or "".
unfoldable pub prefix_of : String → String
prefix_of signal = elim (cut b'_' signal) [
  | none ↦ ""
  | some (before, _) ↦ if is_empty_text before then "" else before <> "_"
]

-- The entries of a map that another one lacks.
unfoldable pub merge_missing : Dict String → Dict String → Dict String
merge_missing [] block = block
merge_missing ((k, v) ∷ more) block = elim (lookup k block) [
  | none ↦ merge_missing more (insert k v block)
  | some _ ↦ merge_missing more block
]

abbrev pub as_list : Option (Dict String) → List (Dict String)
as_list none = []
as_list (some block) = block ∷ []

abbrev pub entries_of : Option (Dict String) → Dict String
entries_of none = []
entries_of (some entries) = entries

-- The keys before the first block.
unfoldable pub keep_pending : String → String → String → Option (Dict String) → Option (Dict String)
keep_pending prefix key value none = none
keep_pending prefix key value (some entries) =
    if not (str_eq prefix "") && has_prefix prefix key
    then some (insert key value entries)
    else some entries

-- The loop of GetBlocks, for the block that is open.
unfoldable pub blocks_from :
    String → String → Option (Dict String) → Option (Dict String) → List String → List (Dict String)
unfolding merge_missing keep_pending
blocks_from signal prefix pending current [] = as_list current
blocks_from signal prefix pending current (l ∷ ls) = elim (cut b'=' l) [
  | none ↦ blocks_from signal prefix pending current ls
  | some (key, value) ↦
      if str_eq key signal
      then as_list current
        ++ blocks_from signal prefix none
            (some (merge_missing (entries_of pending) ((key, value) ∷ []))) ls
      else (elim current [
        | some block ↦ blocks_from signal prefix pending (some (insert key value block)) ls
        | none ↦ blocks_from signal prefix (keep_pending prefix key value pending) none ls
      ])
]

-- GetBlocks
unfoldable pub get_blocks : String → Environment → List (Dict String)
unfolding blocks_from prefix_of
get_blocks signal env = blocks_from signal (prefix_of signal) (some []) none env.raw_lines
