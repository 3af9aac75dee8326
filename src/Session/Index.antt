-- ===== src/Session/Index.antt =====
-- The index of the identifiers by user key agrees with the sessions, whatever the operation.
use framework_kyrux.Prelude.{
  ℕ, ◌≤◌, ◌≡◌, refl, ◌≢◌, inl, inr, String, true, false, List, [], ◌∷◌, ◌++◌, none, some, arith,
  str_eq, eq_iff, dec_text, Bool-cases,
}
use mathlib.Core.Logic.{ite}
use framework_kyrux.Prelude.Dict.{
  lookup, insert, HasDistinctKeys, lookup-insert, lookup-erase, insert-HasDistinctKeys,
}
use framework_kyrux.Prelude.Ids.{
  contains, AreDistinct, contains-append, contains-keep_ids, append-AreDistinct,
  keep_ids-AreDistinct,
}
use framework_kyrux.Session.{
  Session, Store, expired, ids_of, put_ids, is_alive, prune_key_expired, list_under, add_session,
}

module _ {ℓ} {A : Type ℓ} where
  -- At a time: every listed identifier is that of a session of its key, every session of a key that
  -- has not expired is listed under it, no identifier is listed twice, and none under no key.
  pub record IsIndexed (now : ℕ) (st : Store A) : Type ℓ where
    pub distinct : HasDistinctKeys st.sessions
    pub owned :
        (key id : String)
        → contains id (ids_of key st) ≡ true
        → (s : Session A) × (lookup id st.sessions ≡ some s) × (s.user_key ≡ key)
    pub listed :
        (id : String) (s : Session A)
        → lookup id st.sessions ≡ some s
        → s.user_key ≢ ""
        → expired now s ≡ false
        → contains id (ids_of s.user_key st) ≡ true
    pub once : (key : String) → AreDistinct (ids_of key st)
    pub keyless : (id : String) → contains id (ids_of "" st) ≡ false

  pub ids_of-put_ids :
      (key j : String) (ids : List String) (st : Store A)
      → ids_of j (put_ids key ids st) ≡ ite (dec_text key j) ids (ids_of j st)
  unfolding ids_of put_ids
  ids_of-put_ids key j [] st = ground (arith, lookup-erase key j st.by_key)
  ids_of-put_ids key j (i ∷ ids) st = ground (arith, lookup-insert key j (i ∷ ids) st.by_key)

  pub sessions-put_ids :
      (key : String) (ids : List String) (st : Store A)
      → (put_ids key ids st).sessions ≡ st.sessions
  unfolding put_ids
  sessions-put_ids key [] st = refl
  sessions-put_ids key (i ∷ ids) st = refl

  -- Writing the identifiers of a key keeps the agreement, if they are distinct, are some of the old
  -- ones, and hold all old ones whose session has not expired.
  put_ids-IsIndexed :
      (now : ℕ) (key : String) (ids : List String) (st : Store A)
      → IsIndexed now st
      → AreDistinct ids
      → ((id : String) → contains id ids ≡ true → contains id (ids_of key st) ≡ true)
      → ((id : String)
          → is_alive now st id ≡ true
          → contains id (ids_of key st) ≡ true
          → contains id ids ≡ true)
      → IsIndexed now (put_ids key ids st)
  unfolding is_alive
  put_ids-IsIndexed now key ids st v d old kept = record {
    distinct = rw (sessions-put_ids key ids st) v.distinct;
    owned = λ k id h.
        rw (sessions-put_ids key ids st)
          (v.owned k id (ground (arith, ids_of-put_ids key k ids st, old id)));
    listed = λ id s at named alive.
        let at' : lookup id st.sessions ≡ some s = rw (sessions-put_ids key ids st) at at in
        ground
          (arith, ids_of-put_ids key s.user_key ids st, kept id, v.listed id s at' named alive);
    once = λ k. ground (arith, ids_of-put_ids key k ids st, v.once k);
    keyless = λ id. ground (arith, ids_of-put_ids key "" ids st, old id, v.keyless id);
  }

  pub prune_key_expired-IsIndexed :
      (now : ℕ) (key : String) (st : Store A)
      → IsIndexed now st
      → IsIndexed now (prune_key_expired now key st)
  unfolding prune_key_expired
  prune_key_expired-IsIndexed now key st v =
      put_ids-IsIndexed now key _ st v (keep_ids-AreDistinct _ _ (v.once key))
        (λ id h. ground (arith, contains-keep_ids (is_alive now st) id (ids_of key st)))
        (λ id a h. ground (arith, contains-keep_ids (is_alive now st) id (ids_of key st)))

  pub later-IsIndexed :
      (now later : ℕ) (st : Store A) → now ≤ later → IsIndexed now st → IsIndexed later st
  later-IsIndexed now later st h v = record {
    distinct = v.distinct;
    owned = v.owned;
    listed = λ id s at named alive. v.listed id s at named (ground arith);
    once = v.once;
    keyless = v.keyless;
  }

  -- An identifier that is no session's is listed nowhere.
  fresh-unlisted :
      (now : ℕ) (id key : String) (st : Store A)
      → IsIndexed now st
      → lookup id st.sessions ≡ none
      → contains id (ids_of key st) ≡ false
  fresh-unlisted now id key st v fresh = elim (Bool-cases (contains id (ids_of key st))) [
    | inl e ↦ let (s, at, same) = v.owned key id e in absurd (ground arith)
    | inr e ↦ e
  ]

  -- The store with a new session, before it is listed.
  abbrev with_session : String → Session A → Store A → Store A
  with_session id s st = record st { sessions = insert id s st.sessions }

  ids_of-with_session :
      (id : String) (s : Session A) (st : Store A) (key : String)
      → ids_of key (with_session id s st) ≡ ids_of key st
  unfolding ids_of
  ids_of-with_session id s st key = refl

  owned-with_session :
      (now : ℕ) (id : String) (s : Session A) (st : Store A)
      → IsIndexed now st
      → lookup id st.sessions ≡ none
      → (key j : String) → contains j (ids_of key st) ≡ true
      → (t : Session A) × (lookup j (insert id s st.sessions) ≡ some t) × (t.user_key ≡ key)
  owned-with_session now id s st v fresh key j h =
      let (t, at, same) = v.owned key j h in
      (t, ground (arith, lookup-insert id j s st.sessions), same)

  ids_of-list_under :
      (key id j : String) (st : Store A)
      → ids_of j (list_under key id st)
        ≡ ite (dec_text key j) (ids_of key st ++ id ∷ []) (ids_of j st)
  unfolding ids_of list_under
  ids_of-list_under key id j st =
      ground (arith, lookup-insert key j (ids_of key st ++ id ∷ []) st.by_key)

  -- A session of no key needs no listing.
  keyless_session-IsIndexed :
      (now : ℕ) (id : String) (s : Session A) (st : Store A)
      → IsIndexed now st
      → lookup id st.sessions ≡ none
      → s.user_key ≡ ""
      → IsIndexed now (with_session id s st)
  unfolding ids_of
  keyless_session-IsIndexed now id s st v fresh e = record {
    distinct = insert-HasDistinctKeys id s st.sessions v.distinct;
    owned = owned-with_session now id s st v fresh;
    listed = λ j t at named alive. ground (arith, lookup-insert id j s st.sessions, v.listed j t);
    once = v.once;
    keyless = v.keyless;
  }

  -- The identifiers after a session of a key is added and listed.
  ids_of_listed :
      (key id j : String) (s : Session A) (st : Store A)
      → ids_of j (list_under key id (with_session id s st))
        ≡ ite (dec_text key j) (ids_of key st ++ id ∷ []) (ids_of j st)
  ids_of_listed key id j s st = rw (
    ids_of-list_under key id j (with_session id s st),
    ids_of-with_session id s st key,
    ids_of-with_session id s st j,
  )

  sessions-list_under :
      (key id : String) (st : Store A) → (list_under key id st).sessions ≡ st.sessions
  unfolding list_under
  sessions-list_under key id st = refl

  listed_session-IsIndexed :
      (now : ℕ) (id : String) (s : Session A) (st : Store A)
      → IsIndexed now st
      → lookup id st.sessions ≡ none
      → s.user_key ≢ ""
      → IsIndexed now (list_under s.user_key id (with_session id s st))
  unfolding list_under
  listed_session-IsIndexed now id s st v fresh ne =
      let key = s.user_key in
      let new = list_under key id (with_session id s st) in
      let unlisted = fresh-unlisted now id key st v fresh in
      record {
        distinct = insert-HasDistinctKeys id s st.sessions v.distinct;
        owned = λ k j h. elim (dec_text id j) [
          | yes e ↦ (
            s,
            ground (arith, lookup-insert id j s st.sessions),
            ground (arith, ids_of_listed key id k s st, fresh-unlisted now id k st v fresh),
          )
          | no e ↦
              owned-with_session now id s st v fresh k j
                (ground (arith, ids_of_listed key id k s st, contains-append j id (ids_of key st)))
        ];
        listed = λ j t at named alive. ground (
          arith,
          lookup-insert id j s st.sessions,
          ids_of_listed key id t.user_key s st,
          contains-append j id (ids_of key st),
          v.listed j t,
        );
        once = λ k. ground (
          arith,
          ids_of_listed key id k s st,
          append-AreDistinct id (ids_of key st) unlisted (v.once key),
          v.once k,
        );
        keyless = λ j. ground (arith, ids_of_listed key id "" s st, v.keyless j);
      }

  pub add_session-IsIndexed :
      (now : ℕ) (id key : String) (st : Store A)
      → IsIndexed now st
      → lookup id st.sessions ≡ none
      → IsIndexed now (add_session id key now st).0
  unfolding add_session
  add_session-IsIndexed now id key st v fresh = elim (Bool-cases (str_eq key "")) [
    | inl e ↦ rw e (keyless_session-IsIndexed now id _ st v fresh ((eq_iff key "").0 e))
    | inr e ↦
        rw e (listed_session-IsIndexed now id _ st v fresh (λ h. ground (arith, eq_iff key "")))
  ]
