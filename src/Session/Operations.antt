-- ===== src/Session/Operations.antt =====
-- Every operation of the store keeps the index in agreement with the sessions.
use framework_kyrux.Prelude.{
  ℕ, ◌≡◌, refl, sym, ap, subst, ◌∙◌, ◌≢◌, inl, inr, String, true, false, none, some, arith, leb,
  length, if◌then◌else◌, str_eq, eq_iff, dec_text, Bool-cases, Option-cases,
}
use mathlib.Core.Logic.{ite}
use framework_kyrux.Prelude.Dict.{
  lookup, erase, lookup-insert, lookup-erase, insert-HasDistinctKeys, erase-HasDistinctKeys,
}
use framework_kyrux.Prelude.Ids.{
  contains, remove_first, contains-remove_first, contains-remove_first_self,
  remove_first-AreDistinct,
}
use framework_kyrux.Session.{
  Session, Store, expired, ids_of, prune_key_expired, remove_from_key, drop_session, delete,
  add_for_key, new_session, update_session,
}
use framework_kyrux.Session.Index.{
  IsIndexed, ids_of-put_ids, sessions-put_ids, prune_key_expired-IsIndexed, add_session-IsIndexed,
}

module _ {ℓ} {A : Type ℓ} where
  -- The store without a session, before its index is touched.
  abbrev without : String → Store A → Store A
  without id st = record st { sessions = erase id st.sessions }

  -- The index as `drop_session` leaves it.
  abbrev unlisted : String → Session A → Store A → Store A
  unlisted id s st = if str_eq s.user_key "" then st else remove_from_key s.user_key id st

  sessions-unlisted :
      (id : String) (s : Session A) (st : Store A) → (unlisted id s st).sessions ≡ st.sessions
  unfolding remove_from_key
  sessions-unlisted id s st = elim (Bool-cases (str_eq s.user_key "")) [
    | inl e ↦ rw e refl
    | inr e ↦ rw e (sessions-put_ids s.user_key _ st)
  ]

  pub sessions-drop_session :
      (id : String) (s : Session A) (st : Store A)
      → (drop_session id s st).sessions ≡ erase id st.sessions
  unfolding drop_session
  sessions-drop_session id s st = ap (erase id) (sessions-unlisted id s st)

  ids_of-unlisted :
      (id : String) (s : Session A) (st : Store A) (k : String)
      → ids_of k (unlisted id s st) ≡ (
          if str_eq s.user_key ""
          then ids_of k st
          else ite (dec_text s.user_key k) (remove_first id (ids_of s.user_key st)) (ids_of k st))
  unfolding remove_from_key
  ids_of-unlisted id s st k = elim (Bool-cases (str_eq s.user_key "")) [
    | inl e ↦ rw e refl
    | inr e ↦ rw e (ids_of-put_ids s.user_key k _ st)
  ]

  pub ids_of-drop_session :
      (id : String) (s : Session A) (st : Store A) (k : String)
      → ids_of k (drop_session id s st) ≡ (
          if str_eq s.user_key ""
          then ids_of k st
          else ite (dec_text s.user_key k) (remove_first id (ids_of s.user_key st)) (ids_of k st))
  unfolding drop_session ids_of
  ids_of-drop_session id s st k = ids_of-unlisted id s st k

  -- An identifier is listed under the key of its session alone.
  owner_key :
      (now : ℕ) (id k : String) (s : Session A) (st : Store A)
      → IsIndexed now st
      → lookup id st.sessions ≡ some s
      → contains id (ids_of k st) ≡ true
      → s.user_key ≡ k
  owner_key now id k s st v at h = let (t, at', same) = v.owned k id h in ground arith

  -- The session that is dropped is listed nowhere.
  unlisted_after_drop :
      (now : ℕ) (id : String) (s : Session A) (st : Store A)
      → IsIndexed now st
      → lookup id st.sessions ≡ some s
      → (k : String) → contains id (ids_of k (drop_session id s st)) ≡ false
  unlisted_after_drop now id s st v at k = elim (Bool-cases (contains id (ids_of k st))) [
    | inl e ↦
        let same = owner_key now id k s st v at e in
        ground (
          arith,
          ids_of-drop_session id s st k,
          eq_iff s.user_key "",
          v.keyless id,
          contains-remove_first_self id (ids_of s.user_key st) (v.once s.user_key),
        )
    | inr e ↦ ground (
      arith,
      ids_of-drop_session id s st k,
      contains-remove_first_self id (ids_of s.user_key st) (v.once s.user_key),
    )
  ]

  -- What is still listed was listed, and is another session.
  listed_after_drop :
      (now : ℕ) (id : String) (s : Session A) (st : Store A)
      → IsIndexed now st
      → lookup id st.sessions ≡ some s
      → (k j : String) → contains j (ids_of k (drop_session id s st)) ≡ true
      → (contains j (ids_of k st) ≡ true) × (id ≢ j)
  listed_after_drop now id s st v at k j h = elim (dec_text id j) [
    | yes e ↦ let gone = unlisted_after_drop now id s st v at k in absurd (ground arith)
    | no ne ↦ (
      ground (
        arith,
        ids_of-drop_session id s st k,
        contains-remove_first id j (ids_of s.user_key st) ne,
      ),
      ne,
    )
  ]

  pub drop_session-IsIndexed :
      (now : ℕ) (id : String) (s : Session A) (st : Store A)
      → IsIndexed now st
      → lookup id st.sessions ≡ some s
      → IsIndexed now (drop_session id s st)
  drop_session-IsIndexed now id s st v at = record {
    distinct = rw (sessions-drop_session id s st) (erase-HasDistinctKeys id st.sessions v.distinct);
    owned = λ k j h.
        let (was, ne) = listed_after_drop now id s st v at k j h in
        let (t, found, same) = v.owned k j was in
        (
          t,
          rw (sessions-drop_session id s st) (ground (arith, lookup-erase id j st.sessions)),
          same,
        );
    listed = λ j t found named alive.
        let found' : lookup j (erase id st.sessions) ≡ some t =
          rw (sessions-drop_session id s st) at found in
        ground (
          arith,
          lookup-erase id j st.sessions,
          ids_of-drop_session id s st t.user_key,
          contains-remove_first id j (ids_of s.user_key st),
          v.listed j t,
        );
    once = λ k. ground (
      arith,
      ids_of-drop_session id s st k,
      remove_first-AreDistinct id (ids_of s.user_key st) (v.once s.user_key),
      v.once k,
    );
    keyless = λ j. elim (Bool-cases (contains j (ids_of "" (drop_session id s st)))) [
      | inl e ↦
          let (was, ne) = listed_after_drop now id s st v at "" j e in
          let none_there = v.keyless j in absurd (ground arith)
      | inr e ↦ e
    ];
  }

  pub delete-IsIndexed :
      (now : ℕ) (id : String) (st : Store A) → IsIndexed now st → IsIndexed now (delete id st)
  unfolding delete
  delete-IsIndexed now id st v = elim (Option-cases (lookup id st.sessions)) [
    | inl e ↦ rw (e, delete) v
    | inr (s, e) ↦ rw (e, delete) (drop_session-IsIndexed now id s st v e)
  ]

  add_for_key-IsIndexed :
      (now : ℕ) (id key : String) (st : Store A)
      → IsIndexed now st
      → lookup id st.sessions ≡ none
      → IsIndexed now (add_for_key id key now st).0
  unfolding add_for_key
  add_for_key-IsIndexed now id key st v fresh =
      elim (Bool-cases (leb st.max_per_key (length (ids_of key st)))) [
        | inl e ↦ rw e v
        | inr e ↦ rw e (add_session-IsIndexed now id key st v fresh)
      ]

  pub new_session-IsIndexed :
      (now : ℕ) (id key : String) (st : Store A)
      → IsIndexed now st
      → lookup id st.sessions ≡ none
      → IsIndexed now (new_session (some id) key now st).0
  unfolding new_session prune_key_expired
  new_session-IsIndexed now id key st v fresh =
      elim (Bool-cases (leb st.max_total (length st.sessions))) [
        | inl e ↦ rw e v
        | inr e ↦ rw e (elim (Bool-cases (str_eq key "")) [
          | inl k ↦ rw k (add_session-IsIndexed now id key st v fresh)
          | inr k ↦ rw k (
              add_for_key-IsIndexed now id key _ (prune_key_expired-IsIndexed now key st v)
                (rw (sessions-put_ids key _ st) fresh))
        ])
      ]

  -- A session that is like a stored one in key and end is listed as that one is.
  listed_alike :
      (now : ℕ) (id : String) (s t : Session A) (st : Store A)
      → IsIndexed now st
      → lookup id st.sessions ≡ some s
      → s.user_key ≡ t.user_key
      → s.expires ≡ t.expires
      → t.user_key ≢ ""
      → expired now t ≡ false
      → contains id (ids_of t.user_key st) ≡ true
  listed_alike now id s t st v at same end named alive =
      subst (λ k. contains id (ids_of k st) ≡ true) same
        (v.listed id s at (λ h. named (sym same ∙ h)) (ground arith))

  -- A change of a session that keeps its key and its end leaves the agreement.
  pub update_session-IsIndexed :
      (now : ℕ) (id : String) (f : Session A → Session A) (st : Store A)
      → ((s : Session A) → ((f s).user_key ≡ s.user_key) × ((f s).expires ≡ s.expires))
      → IsIndexed now st
      → IsIndexed now (update_session id f st)
  unfolding update_session ids_of
  update_session-IsIndexed now id f st same v = elim (Option-cases (lookup id st.sessions)) [
    | inl e ↦ rw (e, update_session) v
    | inr (s, e) ↦
        rw (e, update_session)
          (record {
            distinct = insert-HasDistinctKeys id (f s) st.sessions v.distinct;
            owned = λ k j h.
                let (t, found, its) = v.owned k j h in
                elim (dec_text id j) [
                  | yes y ↦ (
                    f s,
                    ground (arith, lookup-insert id j (f s) st.sessions),
                    ground (arith, same s),
                  )
                  | no n ↦ (t, ground (arith, lookup-insert id j (f s) st.sessions), its)
                ];
            listed = λ j t found named alive. elim (dec_text id j) [
              | yes y ↦
                  let is : f s ≡ t = ground (arith, lookup-insert id j (f s) st.sessions) in
                  listed_alike now j s t st v (ground arith)
                    (sym (same s).0 ∙ ap (λ x. x.user_key) is)
                    (sym (same s).1 ∙ ap (λ x. x.expires) is) named alive
              | no n ↦
                  v.listed j t (ground (arith, lookup-insert id j (f s) st.sessions)) named alive
            ];
            once = v.once;
            keyless = v.keyless;
          })
  ]
