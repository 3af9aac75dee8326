-- ===== src/Orm/Meta/Tests.antt =====
-- Runs of buildMeta on small structs, and the theorem at one of them.
use Prim.Native.Char.{Char, code}
use framework_kyrux.Prelude.{
  ℕ, ◌==◌, ◌≡◌, refl, Bool, true, false, List, [], ◌∷◌, some, leb, ◌&&◌, if◌then◌else◌, ok, arith,
  is_space, dec_text, Bool-cases, inl, inr, sym, ◌∙◌,
}
use framework_kyrux.Orm.Marks.{count_marks}
use framework_kyrux.Prelude.Texts.{split_at, has_suffix, strip_prefix, trim, trim_start, trim_end}
use framework_kyrux.Orm.Ident.{valid_ident}
use framework_kyrux.Orm.Ident.Default.{valid_default}
use framework_kyrux.Prelude.Dict.{insert}
use framework_kyrux.Orm.Model.{Field, ModelMeta}
use framework_kyrux.Orm.Query.Balance.{IsPlainMeta}
use framework_kyrux.Orm.Statements.Update.{HasPlainColumns}
use framework_kyrux.Orm.Meta.{
  StructField, build_meta, plural_snake, to_snake, snake_from, begins_word, plural, y_stem,
  is_vowel, build_fields, build_field, new_field, apply_parts, apply_part, apply_value,
  with_now_default, check_field, labels_valid, parse_size, digits_value, first_pk, index_columns,
}
use framework_kyrux.Orm.Meta.Plain.{build_meta_plain}

-- The tables of unicode, on the letters that these tests need.
abbrev is_upper : Char → Bool
is_upper c = leb b'A' (code c) && leb (code c) b'Z'

abbrev is_lower : Char → Bool
is_lower c = leb b'a' (code c) && leb (code c) b'z'

abbrev to_lower : Char → Char
to_lower c =
    if code c == b'U'
    then "u"
    else if code c == b'I'
    then "i"
    else if code c == b'D'
    then "d"
    else if code c == b'C'
    then "c"
    else c

unmarked_if :
    (a : ℕ) (u f c : Char)
    → (a == b'?') ≡ false
    → (code u == b'?') ≡ false
    → (code f == b'?') ≡ (code c == b'?')
    → (code (if code c == a then u else f) == b'?') ≡ (code c == b'?')
unmarked_if a u f c ha hu hf = elim (Bool-cases (code c == a)) [
  | inl e ↦ let same : code c ≡ a = ground arith in rw e (hu ∙ sym (rw same ha))
  | inr e ↦ rw e hf
]

to_lower-unmarked : (c : Char) → (code (to_lower c) == b'?') ≡ (code c == b'?')
to_lower-unmarked c = unmarked_if b'U' "u" _ c refl refl (
    unmarked_if b'I' "i" _ c refl refl
      (unmarked_if b'D' "d" _ c refl refl (unmarked_if b'C' "c" c c refl refl refl)))

to_snake_user_id : to_snake is_upper is_lower to_lower "UserID" ≡ "user_id"
unfolding to_snake snake_from begins_word
to_snake_user_id = refl

plural_snake_city : plural_snake is_upper is_lower to_lower "City" ≡ "cities"
unfolding plural_snake to_snake snake_from begins_word plural y_stem is_vowel has_suffix
    strip_prefix
plural_snake_city = refl

abbrev fields : List StructField
fields =
    record { name = "ID"; exported = true; tag = "pk" }
    ∷ record { name = "hidden"; exported = false; tag = "" }
    ∷ record { name = "Code"; exported = true; tag = "column:c, unique, size:+12, default:'a'" }
    ∷ []

abbrev id_column : Field
id_column = record {
  name = "ID";
  column = "id";
  is_pk = true;
  is_hash = false;
  is_encrypt = false;
  is_auto_now = false;
  is_auto_now_add = false;
  is_nano_id = false;
  unique = false;
  fts = false;
  is_image = false;
  go_index = 0;
  size = 0;
  default_sql = "";
  fk = "";
  fk_label = "";
}

abbrev code_column : Field
code_column = record id_column {
  name = "Code";
  column = "c";
  is_pk = false;
  unique = true;
  go_index = 2;
  size = 12;
  default_sql = "'a'";
}

abbrev cities : ModelMeta
cities = record {
  table = "cities";
  fields = id_column ∷ code_column ∷ [];
  pk_field = some id_column;
  col_to_field = ("id", id_column) ∷ ("c", code_column) ∷ [];
}

built : build_meta is_upper is_lower to_lower "City" fields ≡ ok cities
unfolding build_meta build_fields build_field new_field apply_parts apply_part apply_value
    with_now_default check_field labels_valid parse_size digits_value first_pk index_columns
    split_at strip_prefix trim trim_start trim_end valid_ident valid_default insert plural_snake
    to_snake snake_from begins_word plural y_stem is_vowel has_suffix is_space dec_text
built = refl

build_meta_plain_example : IsPlainMeta cities × HasPlainColumns cities
unfolding count_marks
build_meta_plain_example =
    build_meta_plain is_upper is_lower to_lower "City" fields cities to_lower-unmarked refl built
