-- ===== src/Orm/Model.antt =====
-- What a query knows of its model (core/orm/model.go: Field, ModelMeta), its arguments, and the
-- errors that the builder records.
use framework_kyrux.Prelude.{ℕ, String, Bool, List, Option}
use framework_kyrux.Prelude.Dict.{Dict}

-- Field
pub record Field : Type 0 where
  pub name : String
  pub column : String
  pub is_pk : Bool
  pub is_hash : Bool
  pub is_encrypt : Bool
  pub is_auto_now : Bool
  pub is_auto_now_add : Bool
  pub is_nano_id : Bool
  pub unique : Bool
  pub fts : Bool
  pub is_image : Bool
  pub go_index : ℕ
  pub size : ℕ
  pub default_sql : String
  pub fk : String
  pub fk_label : String

pub record ModelMeta : Type 0 where
  pub table : String
  pub fields : List Field
  pub pk_field : Option Field
  pub col_to_field : Dict Field

-- What `any` holds where the builder looks at it: a value of the program's, a text or an integer of
-- the builder's own, or a slice of values.
pub data Arg {ℓ} (A : Type ℓ) : Type ℓ where
  value : A → Arg A
  text : String → Arg A
  number : ℕ → Arg A
  slice : List A → Arg A

-- The errors of the builder and of the statements, one for each message.
pub data OrmError : Type 0 where
  select_ident join_table join_on where_ident where_null where_not_null : String → OrmError
  where_in_ident search_ident search_column search_driver order_by_ident : String → OrmError
  where_in_size : ℕ → OrmError
  aggregate_ident update_column after_ident after_column : String → OrmError
  update_no_where update_join delete_no_where delete_join : OrmError
  hash_failed encrypt_failed : String → OrmError
