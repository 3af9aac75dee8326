-- ===== src/Session/Limits.antt =====
-- The limits of the session store: the sessions in all, and the identifiers listed under one key.
use framework_kyrux.Prelude.{
  ℕ, ◌+◌, ◌≤◌, ◌≡◌, refl, ◌≢◌, inl, inr, String, [], ◌∷◌, ◌++◌, some, arith, leb, length,
  length-append, str_eq, eq_iff, Bool-cases, Option-cases,
}
use framework_kyrux.Prelude.Dict.{Dict, lookup, lookup-insert, length-insert, length-erase-le}
use framework_kyrux.Prelude.Ids.{remove_first, keep_ids, length-remove_first, length-keep_ids-le}
use framework_kyrux.Session.{
  Session, Store, expired, ids_of, put_ids, is_alive, remove_from_key, prune_key_expired,
  drop_session, delete, list_under, add_session, add_for_key, new_session, gc_from, gc,
  update_session,
}
use framework_kyrux.Session.Index.{ids_of-put_ids, sessions-put_ids}
use framework_kyrux.Session.Operations.{sessions-drop_session, ids_of-drop_session}

module _ {ℓ} {A : Type ℓ} where
  -- The store and its limits are within `most` sessions in all and `most_key` under a key.
  pub record IsBounded (most most_key : ℕ) (st : Store A) : Type 0 where
    pub total_limit : st.max_total ≤ most
    pub key_limit : st.max_per_key ≤ most_key
    pub total : length st.sessions ≤ most
    pub per_key : (key : String) → length (ids_of key st) ≤ most_key

  -- Where the limits hold in both stores' fields, fewer sessions and fewer identifiers keep them.
  shrunk-IsBounded :
      (most most_key : ℕ) (st new : Store A)
      → IsBounded most most_key st
      → new.max_total ≡ st.max_total
      → new.max_per_key ≡ st.max_per_key
      → length new.sessions ≤ length st.sessions
      → ((key : String) → length (ids_of key new) ≤ length (ids_of key st))
      → IsBounded most most_key new
  shrunk-IsBounded most most_key st new b total key fewer ids = record {
    total_limit = ground (arith, b.total_limit);
    key_limit = ground (arith, b.key_limit);
    total = ground (arith, b.total);
    per_key = λ k. ground (arith, b.per_key k, ids k);
  }

  max_total-drop_session :
      (id : String) (s : Session A) (st : Store A)
      → ((drop_session id s st).max_total ≡ st.max_total)
        × ((drop_session id s st).max_per_key ≡ st.max_per_key)
  unfolding drop_session remove_from_key put_ids
  max_total-drop_session id s st = elim (Bool-cases (str_eq s.user_key "")) [
    | inl e ↦ rw e (refl, refl)
    | inr e ↦
        rw e
          (elim (remove_first id (ids_of s.user_key st))
            as (λ ids.
              ((put_ids s.user_key ids st).max_total ≡ st.max_total)
              × ((put_ids s.user_key ids st).max_per_key ≡ st.max_per_key)) [
                | [] ↦ (refl, refl)
                | _ ∷ _ ↦ (refl, refl)
              ])
  ]

  pub drop_session-IsBounded :
      (most most_key : ℕ) (id : String) (s : Session A) (st : Store A)
      → IsBounded most most_key st
      → IsBounded most most_key (drop_session id s st)
  drop_session-IsBounded most most_key id s st b =
      let same = max_total-drop_session id s st in
      shrunk-IsBounded most most_key st (drop_session id s st) b same.0 same.1
        (ground (arith, sessions-drop_session id s st, length-erase-le id st.sessions))
        (λ k.
          ground
            (arith, ids_of-drop_session id s st k, length-remove_first id (ids_of s.user_key st)))

  pub delete-IsBounded :
      (most most_key : ℕ) (id : String) (st : Store A)
      → IsBounded most most_key st
      → IsBounded most most_key (delete id st)
  unfolding delete
  delete-IsBounded most most_key id st b = elim (Option-cases (lookup id st.sessions)) [
    | inl e ↦ rw (e, delete) b
    | inr (s, e) ↦ rw (e, delete) (drop_session-IsBounded most most_key id s st b)
  ]

  gc_from-IsBounded :
      (most most_key : ℕ) (now : ℕ) (rest : Dict (Session A)) (st : Store A)
      → IsBounded most most_key st
      → IsBounded most most_key (gc_from now rest st)
  unfolding gc_from
  gc_from-IsBounded most most_key now [] st b = b
  gc_from-IsBounded most most_key now ((id, s) ∷ rest) st b = elim (Bool-cases (expired now s)) [
    | inl e ↦ rw e (
        gc_from-IsBounded most most_key now rest _ (drop_session-IsBounded most most_key id s st b))
    | inr e ↦ rw e (gc_from-IsBounded most most_key now rest st b)
  ]

  pub gc-IsBounded :
      (most most_key : ℕ) (now : ℕ) (st : Store A)
      → IsBounded most most_key st
      → IsBounded most most_key (gc now st)
  unfolding gc
  gc-IsBounded most most_key now st b = gc_from-IsBounded most most_key now st.sessions st b

  pub update_session-IsBounded :
      (most most_key : ℕ) (id : String) (f : Session A → Session A) (st : Store A)
      → IsBounded most most_key st
      → IsBounded most most_key (update_session id f st)
  unfolding update_session ids_of
  update_session-IsBounded most most_key id f st b = elim (Option-cases (lookup id st.sessions)) [
    | inl e ↦ rw (e, update_session) b
    | inr (s, e) ↦
        rw (e, update_session)
          (record {
            total_limit = b.total_limit;
            key_limit = b.key_limit;
            total = ground (arith, length-insert id (f s) st.sessions, b.total);
            per_key = b.per_key;
          })
  ]

  -- Where there is room in all, and under the key.
  add_session-IsBounded :
      (most most_key : ℕ) (id key : String) (now : ℕ) (st : Store A)
      → IsBounded most most_key st
      → length st.sessions + 1 ≤ st.max_total
      → (key ≢ "" → length (ids_of key st) + 1 ≤ st.max_per_key)
      → IsBounded most most_key (add_session id key now st).0
  unfolding add_session list_under ids_of
  add_session-IsBounded most most_key id key now st b room under =
      elim (Bool-cases (str_eq key "")) [
        | inl e ↦ rw e (record {
          total_limit = b.total_limit;
          key_limit = b.key_limit;
          total = ground (
            arith,
            length-insert id
                (record { id = id; user_key = key; values = []; expires = now + st.ttl })
                st.sessions,
            b.total_limit,
          );
          per_key = b.per_key;
        })
        | inr e ↦ rw e (record {
          total_limit = b.total_limit;
          key_limit = b.key_limit;
          total = ground (
            arith,
            length-insert id
                (record { id = id; user_key = key; values = []; expires = now + st.ttl })
                st.sessions,
            b.total_limit,
          );
          per_key = λ k. ground (
            arith,
            lookup-insert key k (ids_of key st ++ id ∷ []) st.by_key,
            length-append (ids_of key st) (id ∷ []),
            eq_iff key "",
            under,
            b.key_limit,
            b.per_key k,
          );
        })
      ]

  add_for_key-IsBounded :
      (most most_key : ℕ) (id key : String) (now : ℕ) (st : Store A)
      → IsBounded most most_key st
      → length st.sessions + 1 ≤ st.max_total
      → IsBounded most most_key (add_for_key id key now st).0
  unfolding add_for_key
  add_for_key-IsBounded most most_key id key now st b room =
      elim (Bool-cases (leb st.max_per_key (length (ids_of key st)))) [
        | inl e ↦ rw e b
        | inr e ↦
            rw e (add_session-IsBounded most most_key id key now st b room (λ _. ground arith))
      ]

  max_total-prune :
      (now : ℕ) (key : String) (st : Store A)
      → ((prune_key_expired now key st).max_total ≡ st.max_total)
        × ((prune_key_expired now key st).max_per_key ≡ st.max_per_key)
  unfolding prune_key_expired put_ids
  max_total-prune now key st =
      elim (keep_ids (is_alive now st) (ids_of key st))
        as (λ ids.
          ((put_ids key ids st).max_total ≡ st.max_total)
          × ((put_ids key ids st).max_per_key ≡ st.max_per_key)) [
            | [] ↦ (refl, refl)
            | _ ∷ _ ↦ (refl, refl)
          ]

  pub sessions-prune :
      (now : ℕ) (key : String) (st : Store A)
      → (prune_key_expired now key st).sessions ≡ st.sessions
  unfolding prune_key_expired
  sessions-prune now key st = sessions-put_ids key _ st

  fewer_ids :
      (now : ℕ) (key : String) (st : Store A) (k : String)
      → length (ids_of k (prune_key_expired now key st)) ≤ length (ids_of k st)
  unfolding prune_key_expired
  fewer_ids now key st k = ground (
    arith,
    ids_of-put_ids key k (keep_ids (is_alive now st) (ids_of key st)) st,
    length-keep_ids-le (is_alive now st) (ids_of key st),
  )

  prune_key_expired-IsBounded :
      (most most_key : ℕ) (now : ℕ) (key : String) (st : Store A)
      → IsBounded most most_key st
      → IsBounded most most_key (prune_key_expired now key st)
  prune_key_expired-IsBounded most most_key now key st b =
      let same = max_total-prune now key st in
      shrunk-IsBounded most most_key st (prune_key_expired now key st) b same.0 same.1
        (ground (arith, sessions-prune now key st)) (fewer_ids now key st)

  pub new_session-IsBounded :
      (most most_key : ℕ) (id key : String) (now : ℕ) (st : Store A)
      → IsBounded most most_key st
      → IsBounded most most_key (new_session (some id) key now st).0
  unfolding new_session
  new_session-IsBounded most most_key id key now st b =
      elim (Bool-cases (leb st.max_total (length st.sessions))) [
        | inl e ↦ rw e b
        | inr e ↦ rw e (elim (Bool-cases (str_eq key "")) [
          | inl k ↦ rw k (
              add_session-IsBounded most most_key id key now st b (ground arith)
                (λ ne. absurd (ne ((eq_iff key "").0 k))))
          | inr k ↦ rw k (
              add_for_key-IsBounded most most_key id key now _
                (prune_key_expired-IsBounded most most_key now key st b)
                (ground (arith, max_total-prune now key st, sessions-prune now key st)))
        ])
      ]
