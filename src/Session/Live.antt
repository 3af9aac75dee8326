-- ===== src/Session/Live.antt =====
-- The sessions of a key that have not expired, and how many there can be.
use framework_kyrux.Prelude.{
  ℕ, ◌≤◌, ◌≡◌, refl, sym, subst, ◌∙◌, ◌≢◌, inl, inr, String, Bool, true, false, List, [], ◌∷◌, none,
  some, arith, length, if◌then◌else◌, str_eq, eq_iff, dec_text, Option-cases,
}
use framework_kyrux.Prelude.Dict.{Dict, lookup, HasDistinctKeys}
use framework_kyrux.Prelude.Ids.{
  contains, remove_first, AreDistinct, contains-remove_first, length-remove_first,
}
use framework_kyrux.Session.{Session, Store, expired, ids_of}
use framework_kyrux.Session.Index.{IsIndexed}
use framework_kyrux.Session.Limits.{IsBounded}

-- Distinct identifiers that another list holds are no more than that list has.
pub length-le_of_contains :
    (js ks : List String)
    → AreDistinct js
    → ((j : String) → contains j js ≡ true → contains j ks ≡ true)
    → length js ≤ length ks
unfolding contains
length-le_of_contains [] ks d h = omega arith
length-le_of_contains (j ∷ js) ks d h =
    let has : contains j ks ≡ true = h j (ground arith) in
    let rest = length-le_of_contains js (remove_first j ks) d.1 (λ i at. elim (dec_text j i) [
      | yes e ↦ absurd (ground arith)
      | no e ↦ ground (arith, contains-remove_first j i ks e, h i)
    ]) in
    ground (arith, length-remove_first j ks)

module _ {ℓ} {A : Type ℓ} where
  -- A session of the key that has not expired.
  lives : ℕ → String → Session A → Bool
  lives now key s = if expired now s then false else str_eq s.user_key key

  -- The identifiers of those sessions.
  pub live_ids : ℕ → String → Dict (Session A) → List String
  live_ids now key [] = []
  live_ids now key ((id, s) ∷ m) =
      if lives now key s then id ∷ live_ids now key m else live_ids now key m

  contains-live_ids :
      (now : ℕ) (key : String) (m : Dict (Session A)) (j : String)
      → HasDistinctKeys m
      → contains j (live_ids now key m)
        ≡ elim (lookup j m) [ none ↦ false | some s ↦ lives now key s ]
  unfolding live_ids lookup contains
  contains-live_ids now key [] j d = refl
  contains-live_ids now key ((id, s) ∷ m) j d =
      ground (arith, contains-live_ids now key m j d.1, d.0)

  live_ids_found :
      (now : ℕ) (key : String) (m : Dict (Session A)) (j : String)
      → HasDistinctKeys m
      → contains j (live_ids now key m) ≡ true
      → (s : Session A) × (lookup j m ≡ some s) × (lives now key s ≡ true)
  live_ids_found now key m j d h = elim (Option-cases (lookup j m)) [
    | inl e ↦ absurd (ground (arith, contains-live_ids now key m j d))
    | inr (s, e) ↦ (s, e, ground (arith, contains-live_ids now key m j d))
  ]

  live_ids-AreDistinct :
      (now : ℕ) (key : String) (m : Dict (Session A))
      → HasDistinctKeys m
      → AreDistinct (live_ids now key m)
  unfolding live_ids
  live_ids-AreDistinct now key [] d = tt
  live_ids-AreDistinct now key ((id, s) ∷ m) d =
      ground (arith, live_ids-AreDistinct now key m d.1, contains-live_ids now key m id d.1, d.0)

  -- What lives is of its key, and not expired.
  lives_split :
      (now : ℕ) (key : String) (s : Session A)
      → lives now key s ≡ true
      → (s.user_key ≡ key) × (expired now s ≡ false)
  unfolding lives
  lives_split now key s h = (ground (arith, eq_iff s.user_key key), ground arith)

  -- In a store that is within limits, whose index agrees with its sessions, a key has no more
  -- sessions that have not expired than the limit of a key.
  pub live_ids-bound :
      (most most_key now : ℕ) (key : String) (st : Store A)
      → IsIndexed now st
      → IsBounded most most_key st
      → key ≢ ""
      → length (live_ids now key st.sessions) ≤ most_key
  live_ids-bound most most_key now key st v b named =
      let few =
        length-le_of_contains (live_ids now key st.sessions) (ids_of key st)
          (live_ids-AreDistinct now key st.sessions v.distinct)
          (λ j h.
            let (s, at, alive) = live_ids_found now key st.sessions j v.distinct h in
            let (same, fresh) = lives_split now key s alive in
            subst (λ k. contains j (ids_of k st) ≡ true) same
              (v.listed j s at (λ e. named (sym same ∙ e)) fresh)) in
      omega (arith, few, b.per_key key)
