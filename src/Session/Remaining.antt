-- ===== src/Session/Remaining.antt =====
-- The sessions that are found after an operation of the store, against those before it.
use framework_kyrux.Prelude.{
  ℕ, ◌≡◌, ◌≢◌, refl, sym, ap, ◌∙◌, inl, inr, String, [], ◌∷◌, some, arith, Bool-cases, Option-cases,
  str_eq, leb, length,
}
use framework_kyrux.Prelude.Dict.{Dict, lookup, insert, erase, lookup-insert, lookup-erase}
use framework_kyrux.Session.{
  Session, Store, expired, drop_session, delete, gc, gc_from, new_session, add_session, add_for_key,
  prune_key_expired, list_under, ids_of,
}
use framework_kyrux.Session.Operations.{sessions-drop_session}
use framework_kyrux.Session.Limits.{sessions-prune}

module _ {ℓ} {A : Type ℓ} where
  -- A session that is still there was there.
  erased_found :
      (id other : String) (s : Session A) (m : Dict (Session A))
      → lookup id (erase other m) ≡ some s
      → lookup id m ≡ some s
  erased_found id other s m e = ground (arith, lookup-erase other id m)

  dropped_found :
      (id other : String) (s t : Session A) (st : Store A)
      → lookup id (drop_session other t st).sessions ≡ some s
      → lookup id st.sessions ≡ some s
  dropped_found id other s t st e =
      erased_found id other s st.sessions
        (ap (lookup id) (sym (sessions-drop_session other t st)) ∙ e)

  swept_found :
      (id : String) (now : ℕ) (s : Session A) (rest : Dict (Session A)) (st : Store A)
      → lookup id (gc_from now rest st).sessions ≡ some s
      → lookup id st.sessions ≡ some s
  unfolding gc_from
  swept_found id now s [] st e = e
  swept_found id now s ((other, t) ∷ rest) st e = elim (Bool-cases (expired now t)) [
    | inl x ↦
        dropped_found id other s t st
          (swept_found id now s rest (drop_session other t st) (rw (x, gc_from) at e))
    | inr x ↦ swept_found id now s rest st (rw (x, gc_from) at e)
  ]

  pub deleted_found :
      (id other : String) (s : Session A) (st : Store A)
      → lookup id (delete other st).sessions ≡ some s
      → lookup id st.sessions ≡ some s
  unfolding delete
  deleted_found id other s st e = elim (Option-cases (lookup other st.sessions)) [
    | inl x ↦ rw (x, delete) at e
    | inr (t, x) ↦ dropped_found id other s t st (rw (x, delete) at e)
  ]

  pub inserted_found :
      (id new : String) (t : Session A) (m : Dict (Session A))
      → new ≢ id
      → lookup id (insert new t m) ≡ lookup id m
  inserted_found id new t m ne = ground (arith, lookup-insert new id t m)

  added_found :
      (id new user_key : String) (now : ℕ) (st : Store A)
      → new ≢ id
      → lookup id (add_session new user_key now st).0.sessions ≡ lookup id st.sessions
  unfolding add_session list_under
  added_found id new user_key now st ne = elim (Bool-cases (str_eq user_key "")) [
    | inl e ↦ rw e (inserted_found id new _ st.sessions ne)
    | inr e ↦ rw e (inserted_found id new _ st.sessions ne)
  ]

  added_for_key_found :
      (id new user_key : String) (now : ℕ) (st : Store A)
      → new ≢ id
      → lookup id (add_for_key new user_key now st).0.sessions ≡ lookup id st.sessions
  unfolding add_for_key
  added_for_key_found id new user_key now st ne =
      elim (Bool-cases (leb st.max_per_key (length (ids_of user_key st)))) [
        | inl e ↦ rw e refl
        | inr e ↦ rw e (added_found id new user_key now st ne)
      ]

  pub created_found :
      (id new user_key : String) (now : ℕ) (st : Store A)
      → new ≢ id
      → lookup id (new_session (some new) user_key now st).0.sessions ≡ lookup id st.sessions
  unfolding new_session
  created_found id new user_key now st ne =
      elim (Bool-cases (leb st.max_total (length st.sessions))) [
        | inl e ↦ rw e refl
        | inr e ↦ rw e (elim (Bool-cases (str_eq user_key "")) [
          | inl k ↦ rw k (added_found id new user_key now st ne)
          | inr k ↦ rw k (
              added_for_key_found id new user_key now (prune_key_expired now user_key st) ne
              ∙ ap (lookup id) (sessions-prune now user_key st))
        ])
      ]

  pub gc_found :
      (id : String) (now : ℕ) (s : Session A) (st : Store A)
      → lookup id (gc now st).sessions ≡ some s
      → lookup id st.sessions ≡ some s
  unfolding gc
  gc_found id now s st e = swept_found id now s st.sessions st e
