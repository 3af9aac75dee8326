-- ===== src/Orm/Statements/Sealing.antt =====
-- UPDATE never stores the plain text of a hashed or an encrypted column.
use framework_kyrux.Prelude.{
  ◌≡◌, refl, ◌≢◌, ◌⊎◌, inl, inr, String, true, false, List, [], ◌∷◌, ◌++◌, Option, none, some,
  arith, All, Bool-cases, Option-cases, Result, ok, err,
}
use framework_kyrux.Prelude.Dict.{Dict, lookup, keys, keys_found}
use framework_kyrux.Orm.Model.{Field, Arg, value, text, number, slice, OrmError}
use framework_kyrux.Orm.Query.{Query}
use framework_kyrux.Orm.Statements.{
  Statement, sort_texts, stored, stored_at, stored_all, update_statement,
}
use framework_kyrux.Orm.Statements.Safety.{update_sent}
use framework_kyrux.Orm.Statements.Update.{All-sort_texts, stored_all_cons, update_known_sent}
use package.text.Mathlib.Text.{starts_with}

module _ {ℓ} {A : Type ℓ} (hash encrypt : String → Option String) where
  -- What may be sent for a text of a column: for a hashed column its hash, unless it is one
  -- already; for an encrypted column its cipher text; and itself for a column that is neither.
  pub data Seals (f : Field) (s : String) (v : Arg A) : Type ℓ where
    hashed : (h : String) → f.is_hash ≡ true → hash s ≡ some h → v ≡ text h → Seals f s v
    was_hash : f.is_hash ≡ true → starts_with s "$argon2id$" ≡ true → v ≡ text s → Seals f s v
    ciphered :
        (c : String)
        → f.is_hash ≡ false
        → f.is_encrypt ≡ true
        → encrypt s ≡ some c
        → v ≡ text c
        → Seals f s v
    plain : f.is_hash ≡ false → f.is_encrypt ≡ false → v ≡ text s → Seals f s v

  -- The same for any value of a column; what is no text is sent as it is.
  pub data SealsAt (f : Option Field) (v : Arg A) : Arg A → Type ℓ where
    column_text : (g : Field) (s : String) → f ≡ some g → Seals g s v → SealsAt f v (text s)
    other : (val : Arg A) → ((s : String) → val ≢ text s) ⊎ (f ≡ none) → v ≡ val → SealsAt f v val

  -- The arguments are those of the columns' values, one for each, in the columns' order.
  pub data AreSealed (cols : Dict Field) (values : Dict (Arg A))
      : List String → List (Arg A) → Type ℓ where
    done : AreSealed cols values [] []
    next :
        {k : String} {ks : List String} {v val : Arg A} {vs : List (Arg A)}
        → lookup k values ≡ some val
        → SealsAt (lookup k cols) v val
        → AreSealed cols values ks vs
        → AreSealed cols values (k ∷ ks) (v ∷ vs)

  stored-Seals :
      (f : Field) (s : String) (v : Arg A) → stored hash encrypt f (text s) ≡ ok v → Seals f s v
  unfolding stored
  stored-Seals f s v e = elim (Bool-cases f.is_hash) [
    | inl h ↦ elim (Bool-cases (starts_with s "$argon2id$")) [
      | inl p ↦ was_hash h p (ground arith)
      | inr p ↦ elim (Option-cases (hash s)) [
        | inl n ↦ absurd (ground arith)
        | inr (d, n) ↦ hashed d h n (ground arith)
      ]
    ]
    | inr h ↦ elim (Bool-cases f.is_encrypt) [
      | inl p ↦ elim (Option-cases (encrypt s)) [
        | inl n ↦ absurd (ground arith)
        | inr (d, n) ↦ ciphered d h p n (ground arith)
      ]
      | inr p ↦ plain h p (ground arith)
    ]
  ]

  stored_at-SealsAt :
      (f : Option Field) (val : Arg A) (vs : List (Arg A))
      → stored_at hash encrypt f (some val) ≡ ok vs
      → (v : Arg A) × (vs ≡ v ∷ []) × SealsAt f v val
  unfolding stored_at stored
  stored_at-SealsAt none val vs e = (val, ground arith, other val (inr refl) refl)
  stored_at-SealsAt (some f) (text s) vs e = split (stored hash encrypt f (text s)) refl
    where
      split :
          (r : Result OrmError (Arg A))
          → stored hash encrypt f (text s) ≡ r
          → (v : Arg A) × (vs ≡ v ∷ []) × SealsAt (some f) v (text s)
      split (err c) h = absurd (ground arith)
      split (ok v) h = (v, ground arith, column_text f s refl (stored-Seals f s v h))
  stored_at-SealsAt (some f) (value a) vs e =
      (value a, ground arith, other (value a) (inl (λ s. cc)) refl)
  stored_at-SealsAt (some f) (number n) vs e =
      (number n, ground arith, other (number n) (inl (λ s. cc)) refl)
  stored_at-SealsAt (some f) (slice xs) vs e =
      (slice xs, ground arith, other (slice xs) (inl (λ s. cc)) refl)

  stored_all-AreSealed :
      (cols : Dict Field) (values : Dict (Arg A)) (ks : List String) (vs : List (Arg A))
      → All (λ k. lookup k values ≢ none) ks
      → stored_all hash encrypt cols values ks ≡ ok vs
      → AreSealed cols values ks vs
  unfolding stored_all
  stored_all-AreSealed cols values [] vs h e =
      let none_left : vs ≡ [] = ground arith in rw none_left done
  stored_all-AreSealed cols values (k ∷ ks) vs h e =
      let (v, ws, at, rest, same) = stored_all_cons hash encrypt cols values k ks vs e in
      elim (Option-cases (lookup k values)) [
        | inl n ↦ absurd (h.0 n)
        | inr (val, n) ↦
            let (x, one, sealed) = stored_at-SealsAt (lookup k cols) val v (rw n at at) in
            rw (same, one) (next n sealed (stored_all-AreSealed cols values ks ws h.1 rest))
      ]

  -- An UPDATE that is sent binds, before the arguments of its conditions, one argument for each
  -- column of `values` in sorted order: a text of a hashed column as its hash, unless it is a hash
  -- already, a text of an encrypted column as its cipher text, and every other value as it is. So
  -- where hashing or encrypting fails, nothing is sent.
  pub update_sealed :
      (values : Dict (Arg A)) (q : Query A) (st : Statement A)
      → update_statement hash encrypt values q ≡ ok st
      → (vs : List (Arg A)) × (st.args ≡ vs ++ q.args)
        × AreSealed q.meta.col_to_field values (sort_texts (keys values)) vs
  update_sealed values q st e =
      let (no_err, some_where, no_join, known, sent) = update_sent hash encrypt values q st e in
      let (vs, stored_ok, same, sent_text) =
        update_known_sent hash encrypt (sort_texts (keys values)) values q st sent in
      let found = All-sort_texts (λ k. lookup k values ≢ none) (keys values) (keys_found values) in
      (vs, same, stored_all-AreSealed q.meta.col_to_field values _ vs found stored_ok)
