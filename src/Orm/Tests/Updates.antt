-- ===== src/Orm/Tests/Updates.antt =====
-- UPDATE on the small model, with a hash and a cipher that mark their texts.
use framework_kyrux.Prelude.{
  ℕ, ◌≡◌, refl, subst, String, List, [], ◌∷◌, ◌++◌, Option, some, ok, dec_text, ◌<>◌, arith,
}
use framework_kyrux.Prelude.Dict.{Dict, lookup, keys}
use framework_kyrux.Orm.Marks.{marks, count_marks}
use framework_kyrux.Orm.Model.{Arg, value, text}
use framework_kyrux.Orm.Query.{from_db}
use framework_kyrux.Orm.Rewrite.{rewrite_placeholders}
use framework_kyrux.Orm.Statements.{
  Statement, rewritten, set_clauses, sort_texts, now_clauses, update_text, update_statement,
  stored_all, stored, update_known, unknown_column,
}
use framework_kyrux.Orm.Statements.Update.{HasPlainColumns, update_balanced}
use framework_kyrux.Orm.Statements.Sealing.{AreSealed, update_sealed}
use framework_kyrux.Orm.Tests.{users, one_user, one_user-IsBalanced}

abbrev marked_hash : String → Option String
marked_hash s = some ("$argon2id$" <> s)

abbrev marked_cipher : String → Option String
marked_cipher s = some ("enc:" <> s)

abbrev changes : Dict (Arg ℕ)
changes = ("secret", text "s3") ∷ ("id", value 9) ∷ []

abbrev changed : Statement ℕ
changed =
    rewritten one_user
      (update_text (set_clauses (sort_texts (keys changes)) ++ now_clauses changes users.fields)
        one_user)
      (value 9 ∷ text "$argon2id$s3" ∷ value 3 ∷ [])

update_sent_here : update_statement marked_hash marked_cipher changes one_user ≡ ok changed
unfolding update_statement from_db unknown_column lookup dec_text update_known stored_all sort_texts
    stored
update_sent_here = refl

users-HasPlainColumns : HasPlainColumns users
unfolding count_marks lookup
users-HasPlainColumns = record {
  indexed = λ c found. elim (dec_text "id" c) [
    | yes e ↦ subst (λ s. marks s ≡ 0) e refl
    | no not_id ↦ elim (dec_text "secret" c) [
      | yes e ↦ subst (λ s. marks s ≡ 0) e refl
      | no not_secret ↦ absurd (ground arith)
    ]
  ];
  listed = (refl, (refl, tt));
}

update_balanced_example :
    (sql : String) × (changed.sql ≡ rewrite_placeholders "mysql" sql) × (marks sql ≡ 3)
unfolding from_db
update_balanced_example =
    update_balanced marked_hash marked_cipher changes one_user changed one_user-IsBalanced
      users-HasPlainColumns update_sent_here

update_sealed_example :
    (vs : List (Arg ℕ)) × (changed.args ≡ vs ++ one_user.args)
    × AreSealed marked_hash marked_cipher one_user.meta.col_to_field changes
        (sort_texts (keys changes))
        vs
update_sealed_example =
    update_sealed marked_hash marked_cipher changes one_user changed update_sent_here
