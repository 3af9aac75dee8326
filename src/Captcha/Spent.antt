-- ===== src/Captcha/Spent.antt =====
-- Sessions without a code, and the steps that set none.
use framework_kyrux.Prelude.{
  ℕ, ◌+◌, ◌≤◌, ◌≡◌, ◌≢◌, ◌⊎◌, refl, sym, ◌∙◌, inl, inr, String, true, none, some, arith,
  Option-cases, dec_text, subst,
}
use framework_kyrux.Prelude.Dict.{lookup, insert, lookup-insert, lookup-erase}
use framework_kyrux.Session.{
  Session, Store, expired, get_value, set_value, delete_value, update_session, delete, gc,
  new_session,
}
use framework_kyrux.Session.Remaining.{inserted_found, created_found, deleted_found, gc_found}
use framework_kyrux.Captcha.{session_key}

module _ {ℓ} {A : Type ℓ} where
  -- What the requests, the sweep and time make of a store, with no code set in the session `id`: a
  -- value that is set is another one, or of another session. Each Delete of a Verify, also of one
  -- that overlaps others, is a `value_deleted`.
  pub data Passes (id : String) (now : ℕ) (st : Store A) : ℕ → Store A → Type ℓ where
    here : Passes id now st now st
    waited :
        {t : ℕ} {s : Store A} (seconds : ℕ)
        → Passes id now st t s
        → Passes id now st (t + seconds) s
    swept : {t : ℕ} {s : Store A} → Passes id now st t s → Passes id now st t (gc t s)
    deleted :
        {t : ℕ} {s : Store A} (other : String)
        → Passes id now st t s
        → Passes id now st t (delete other s)
    created :
        {t : ℕ} {s : Store A} (new user_key : String)
        → new ≢ id
        → Passes id now st t s
        → Passes id now st t (new_session (some new) user_key t s).0
    value_set :
        {t : ℕ} {s : Store A} (other key : String) (v : A)
        → ((other ≢ id) ⊎ (key ≢ session_key))
        → Passes id now st t s
        → Passes id now st t (update_session other (set_value key v) s)
    value_deleted :
        {t : ℕ} {s : Store A} (other key : String)
        → Passes id now st t s
        → Passes id now st t (update_session other (delete_value key) s)

  -- The session is gone, has expired, or has no code.
  abbrev pub IsSpent : String → ℕ → Store A → Type ℓ
  IsSpent id now st =
      (s : Session A)
      → lookup id st.sessions ≡ some s
      → (expired now s ≡ true) ⊎ (get_value session_key s ≡ none)

  later-IsSpent :
      (id : String) (now later : ℕ) (st : Store A)
      → now ≤ later
      → IsSpent id now st
      → IsSpent id later st
  later-IsSpent id now later st le h s e = elim (h s e) [
    | inl gone ↦ inl (ground arith)
    | inr empty ↦ inr empty
  ]

  update-IsSpent :
      (id other : String) (now : ℕ) (f : Session A → Session A) (st : Store A)
      → ((s : Session A) → (f s).expires ≡ s.expires)
      → ((s : Session A)
          → (other ≢ id) ⊎ (get_value session_key s ≡ none → get_value session_key (f s) ≡ none))
      → IsSpent id now st
      → IsSpent id now (update_session other f st)
  unfolding update_session
  update-IsSpent id other now f st same kept h s e =
      elim (Option-cases (lookup other st.sessions)) [
        | inl x ↦ h s (rw (x, update_session) at e)
        | inr (t, x) ↦
            let found : lookup id (insert other (f t) st.sessions) ≡ some s =
              rw (x, update_session) at e in
            elim (dec_text other id) [
              | no ne ↦ h s (sym (inserted_found id other (f t) st.sessions ne) ∙ found)
              | yes eq ↦ changed t eq (subst (λ i. lookup i st.sessions ≡ some t) eq x) found
            ]
      ]
    where
      changed :
          (t : Session A)
          → other ≡ id
          → lookup id st.sessions ≡ some t
          → lookup id (insert other (f t) st.sessions) ≡ some s
          → (expired now s ≡ true) ⊎ (get_value session_key s ≡ none)
      changed t eq x found =
          let it : f t ≡ s = ground (arith, lookup-insert other id (f t) st.sessions) in
          subst (λ u. (expired now u ≡ true) ⊎ (get_value session_key u ≡ none)) it
            (elim (h t x) [
              | inl gone ↦ inl (ground (arith, same t))
              | inr empty ↦ elim (kept t) [
                | inl ne ↦ absurd (ne eq)
                | inr keeps ↦ inr (keeps empty)
              ]
            ])

  pub Passes-IsSpent :
      (id : String) (now : ℕ) (st : Store A) (later : ℕ) (after : Store A)
      → Passes id now st later after
      → IsSpent id now st
      → IsSpent id later after
  unfolding set_value delete_value get_value
  Passes-IsSpent id now st later after here h = h
  Passes-IsSpent id now st later after (waited {t} {s} seconds p) h =
      later-IsSpent id t (t + seconds) s (omega arith) (Passes-IsSpent id now st _ _ p h)
  Passes-IsSpent id now st later after (swept p) h =
      λ s e. Passes-IsSpent id now st _ _ p h s (gc_found id _ s _ e)
  Passes-IsSpent id now st later after (deleted other p) h =
      λ s e. Passes-IsSpent id now st _ _ p h s (deleted_found id other s _ e)
  Passes-IsSpent id now st later after (created new user_key ne p) h =
      λ s e. Passes-IsSpent id now st _ _ p h s (sym (created_found id new user_key _ _ ne) ∙ e)
  Passes-IsSpent id now st later after (value_set other key v ne p) h =
      update-IsSpent id other _ _ _ (λ s. refl)
        (λ s. elim ne [
          | inl far ↦ inl far
          | inr key_ne ↦ inr (λ e. ground (arith, lookup-insert key session_key v s.values))
        ])
        (Passes-IsSpent id now st _ _ p h)
  Passes-IsSpent id now st later after (value_deleted other key p) h =
      update-IsSpent id other _ _ _ (λ s. refl)
        (λ s. inr (λ e. ground (arith, lookup-erase key session_key s.values)))
        (Passes-IsSpent id now st _ _ p h)
