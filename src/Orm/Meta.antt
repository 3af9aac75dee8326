-- ===== src/Orm/Meta.antt =====
-- What is read of a Go struct and its kyrux tags (core/orm/model.go: buildMeta, toSnake, pluralSnake,
-- isVowel). The struct's fields come from reflection as a list. The tables of the package unicode
-- are parameters.
pub mod Names
pub mod Plain
pub mod Tests
use Prim.Native.Char.{Char, code}
use framework_kyrux.Prelude.{
  ℕ, suc, ◌+◌, ◌-◌, ◌*◌, String, Bool, true, false, List, [], ◌∷◌, ◌++◌, Option, none, some, leb,
  ◌==◌, ◌&&◌, ◌||◌, not, if◌then◌else◌, ◌<>◌, Result, ok, err, str_eq, min, ◌^◌,
}
use framework_kyrux.Prelude.Dict.{Dict, insert}
use framework_kyrux.Prelude.Texts.{split_at, strip_prefix, trim, is_empty_text, has_suffix}
use framework_kyrux.Orm.Ident.{valid_ident}
use framework_kyrux.Orm.Ident.Default.{valid_default}
use framework_kyrux.Orm.Model.{Field, ModelMeta}

-- reflect.StructField, as far as it is read
pub record StructField : Type 0 where
  pub name : String
  pub exported : Bool
  pub tag : String

-- The panics of buildMeta
pub data MetaError : Type 0 where
  bad_column bad_fk bad_fk_label bad_default : String → MetaError

-- strconv.Atoi of digits, stopped at the largest int; 0 where it fails. A negative size counts as
-- 0, as it does where sizes are read.
unfoldable pub digits_value : ℕ → String → Option ℕ
digits_value n String.[] = some n
digits_value n (String.◌∷◌ c s) =
    let rest = digits_value (min (10 * n + (code c - b'0')) (2 ^ 63 - 1)) s in
    if leb b'0' (code c) && leb (code c) b'9' then rest else none

unfoldable pub parse_size : String → ℕ
unfolding digits_value
parse_size String.[] = 0
parse_size (String.◌∷◌ c s) =
    let digits = if code c == b'+' then s else String.◌∷◌ c s in
    if is_empty_text digits then 0 else (elim (digits_value 0 digits) [ none ↦ 0 | some n ↦ n ])

-- One part of a tag with a value: the prefix, and what it sets.
unfoldable pub apply_value : String → Field → Field
unfolding parse_size
apply_value part f = elim (strip_prefix "column:" part) [
  | some v ↦ record f { column = v }
  | none ↦ elim (strip_prefix "size:" part) [
    | some v ↦ record f { size = parse_size v }
    | none ↦ elim (strip_prefix "default:" part) [
      | some v ↦ record f { default_sql = v }
      | none ↦ elim (strip_prefix "fk:" part) [
        | some v ↦ record f { fk = v }
        | none ↦ elim (strip_prefix "fklabel:" part) [
          | some v ↦ record f { fk_label = v }
          | none ↦ f
        ]
      ]
    ]
  ]
]

unfoldable pub apply_part : String → Field → Field
unfolding apply_value
apply_part part f =
    if str_eq part "pk"
    then record f { is_pk = true }
    else if str_eq part "hash"
    then record f { is_hash = true }
    else if str_eq part "encrypt"
    then record f { is_encrypt = true }
    else if str_eq part "autonow"
    then record f { is_auto_now = true }
    else if str_eq part "autonow_add"
    then record f { is_auto_now_add = true }
    else if str_eq part "nanoid"
    then record f { is_nano_id = true }
    else if str_eq part "unique"
    then record f { unique = true }
    else if str_eq part "fts"
    then record f { fts = true }
    else if str_eq part "image"
    then record f { is_image = true }
    else apply_value part f

unfoldable pub apply_parts : List String → Field → Field
unfolding apply_part
apply_parts [] f = f
apply_parts (p ∷ ps) f = apply_parts ps (apply_part (trim p) f)

-- autonow and autonow_add imply a default.
unfoldable pub with_now_default : Field → Field
with_now_default f =
    if (f.is_auto_now || f.is_auto_now_add) && str_eq f.default_sql ""
    then record f { default_sql = "CURRENT_TIMESTAMP" }
    else f

unfoldable pub labels_valid : List String → Bool
labels_valid [] = true
labels_valid (l ∷ ls) = (str_eq l "" || valid_ident l) && labels_valid ls

-- The checks of a field, in the source's order.
unfoldable pub check_field : Field → Result MetaError Field
check_field f =
    if not (valid_ident f.column)
    then err (bad_column f.column)
    else if not (str_eq f.fk "") && not (valid_ident f.fk)
    then err (bad_fk f.fk)
    else if not (labels_valid (split_at b'+' f.fk_label))
    then err (bad_fk_label f.fk_label)
    else if not (str_eq f.default_sql "") && not (valid_default f.default_sql)
    then err (bad_default f.default_sql)
    else ok f

unfoldable pub index_columns : List Field → Dict Field → Dict Field
index_columns [] cols = cols
index_columns (f ∷ fs) cols = index_columns fs (insert f.column f cols)

unfoldable pub first_pk : List Field → Option Field
first_pk [] = none
first_pk (f ∷ fs) = if f.is_pk then some f else first_pk fs

unfoldable pub is_vowel : Char → Bool
is_vowel c = code c == b'a' || code c == b'e' || code c == b'i' || code c == b'o' || code c == b'u'

-- The text before a last `y` that follows no vowel; `after` says whether such a character is before.
unfoldable pub y_stem : Bool → String → Option String
y_stem after String.[] = none
y_stem after (String.◌∷◌ c s) =
    let rest = y_stem (not (is_vowel c)) s in
    if is_empty_text s
    then (if after && code c == b'y' then some "" else none)
    else (elim rest [ none ↦ none | some t ↦ some (String.◌∷◌ c t) ])

-- The plural of pluralSnake.
unfoldable pub plural : String → String
plural s =
    if has_suffix "s" s
      || has_suffix "x" s
      || has_suffix "z" s
      || has_suffix "sh" s
      || has_suffix "ch" s
    then s <> "es"
    else (elim (y_stem false s) [ some stem ↦ stem <> "ies" | none ↦ s <> "s" ])

module _ (is_upper is_lower : Char → Bool) (to_lower : Char → Char) where
  head_is_lower : String → Bool
  head_is_lower String.[] = false
  head_is_lower (String.◌∷◌ c s) = is_lower c

  -- Whether a capital begins a word, after the character before it, if there is one.
  unfoldable pub begins_word : Option Char → String → Bool
  unfolding head_is_lower
  begins_word none s = false
  begins_word (some before) s = not (is_upper before) || head_is_lower s

  unfoldable pub snake_from : Option Char → String → String
  snake_from before String.[] = ""
  snake_from before (String.◌∷◌ c s) =
      let rest = snake_from (some c) s in
      if is_upper c
      then (if begins_word before s then "_" else "") <> String.◌∷◌ (to_lower c) rest
      else String.◌∷◌ c rest

  unfoldable pub to_snake : String → String
  to_snake s = snake_from none s

  unfoldable pub plural_snake : String → String
  plural_snake type_name = plural (to_snake type_name)

  unfoldable pub new_field : ℕ → StructField → Field
  new_field i sf = record {
    name = sf.name;
    column = to_snake sf.name;
    is_pk = false;
    is_hash = false;
    is_encrypt = false;
    is_auto_now = false;
    is_auto_now_add = false;
    is_nano_id = false;
    unique = false;
    fts = false;
    is_image = false;
    go_index = i;
    size = 0;
    default_sql = "";
    fk = "";
    fk_label = "";
  }

  unfoldable pub build_field : ℕ → StructField → Result MetaError Field
  build_field i sf =
      check_field (with_now_default (apply_parts (split_at b',' sf.tag) (new_field i sf)))

  -- The loop of buildMeta; `i` is the index of the first field of the list.
  unfoldable pub build_fields : ℕ → List StructField → Result MetaError (List Field)
  build_fields i [] = ok []
  build_fields i (sf ∷ sfs) =
      let rest = build_fields (i + 1) sfs in
      let field = build_field i sf in
      if not sf.exported
      then rest
      else (elim field [ err e ↦ err e | ok f ↦ elim rest [ err e ↦ err e | ok fs ↦ ok (f ∷ fs) ] ])

  unfoldable pub build_meta : String → List StructField → Result MetaError ModelMeta
  build_meta type_name sfs = elim (build_fields 0 sfs) [
    | err e ↦ err e
    | ok fs ↦ ok (record {
      table = plural_snake type_name;
      fields = fs;
      pk_field = first_pk fs;
      col_to_field = index_columns fs [];
    })
  ]
