-- ===== src/Login/NewSession.antt =====
-- What the session store holds once a user is let in (the end of Login in
-- core/security/auth/login.go).
use framework_kyrux.Prelude.{
  ℕ, ◌+◌, ◌≡◌, ◌≢◌, refl, ap, ◌∙◌, inl, inr, String, false, Option, none, some, arith, dec_text,
  Result, ok, err, Option-cases,
}
use framework_kyrux.Prelude.Dict.{lookup, insert, lookup-insert, lookup-erase}
use framework_kyrux.Session.{
  Session, Store, SessionError, new_session, add_session, delete, get, from_request, get_value,
  set_value, update_session, expired,
}
use framework_kyrux.Session.Operations.{sessions-drop_session}
use framework_kyrux.Login.{
  Value, number, text, User, Auth, drop_current, write_user, sign_in, let_in,
}

module _ {ℓ} {A : Type ℓ} where
  -- A session that is made is in the store, lasts, and leaves the other sessions as they are.
  record IsMade (now : ℕ) (old new : Store (Value A)) (s : Session (Value A)) : Type ℓ where
    found : lookup s.id new.sessions ≡ some s
    lasts : expired now s ≡ false
    others : (j : String) → s.id ≢ j → lookup j new.sessions ≡ lookup j old.sessions

  made_by :
      (id : String) (now : ℕ) (old new : Store (Value A)) (s : Session (Value A))
      → new_session (some id) "" now old ≡ (new, ok s)
      → (s.id ≡ id) × (s.expires ≡ now + old.ttl) × (new.sessions ≡ insert id s old.sessions)
  unfolding new_session add_session
  made_by id now old new s e = ground arith

  new_session-IsMade :
      (fresh : Option String) (now : ℕ) (old new : Store (Value A)) (s : Session (Value A))
      → new_session fresh "" now old ≡ (new, ok s)
      → IsMade now old new s
  unfolding new_session add_session
  new_session-IsMade none now old new s e = absurd (ground arith)
  new_session-IsMade (some id) now old new s e =
      let (same, ends, stored) = made_by id now old new s e in
      record {
        found = ground (arith, ap (lookup s.id) stored, lookup-insert id s.id s old.sessions);
        lasts = ground arith;
        others = λ j ne. ground (arith, ap (lookup j) stored, lookup-insert id j s old.sessions);
      }

  lookup-delete : (id : String) (st : Store (Value A)) → lookup id (delete id st).sessions ≡ none
  unfolding delete
  lookup-delete id st = elim (Option-cases (lookup id st.sessions)) [
    | inl e ↦ ground arith
    | inr (s, e) ↦ ground (arith, sessions-drop_session id s st, lookup-erase id id st.sessions)
  ]

  sign_in_passed :
      (u : User) (now : ℕ) (fresh : Option String) (old : Store (Value A)) (st : Auth A)
      (s : Session (Value A))
      → (sign_in u (new_session fresh "" now old) st).1 ≡ ok s
      → (new : Store (Value A)) × (s0 : Session (Value A)) × IsMade now old new s0
        × (s ≡ write_user u s0)
        × ((sign_in u (new_session fresh "" now old) st).0.sessions
            ≡ update_session s0.id (write_user u) new)
  unfolding sign_in
  sign_in_passed u now fresh old st s e = split (new_session fresh "" now old) refl e
    where
      split :
          (r : Store (Value A) × Result SessionError (Session (Value A)))
          → new_session fresh "" now old ≡ r
          → (sign_in u r st).1 ≡ ok s
          → (new : Store (Value A)) × (s0 : Session (Value A)) × IsMade now old new s0
            × (s ≡ write_user u s0)
            × ((sign_in u r st).0.sessions ≡ update_session s0.id (write_user u) new)
      split (new, err x) same e = absurd (ground arith)
      split (new, ok s0) same e =
          (new, s0, new_session-IsMade fresh now old new s0 same, ground arith, refl)

  sessions-update :
      (id : String) (f : Session (Value A) → Session (Value A)) (st : Store (Value A))
      (s : Session (Value A))
      → lookup id st.sessions ≡ some s
      → (update_session id f st).sessions ≡ insert id (f s) st.sessions
  unfolding update_session
  sessions-update id f st s e = rw (e, update_session) refl

  -- The new session as the store then holds it.
  get_signed_in :
      (u : User) (now : ℕ) (old new : Store (Value A)) (s0 : Session (Value A))
      → IsMade now old new s0
      → get s0.id now (update_session s0.id (write_user u) new) ≡ some (write_user u s0)
  unfolding get write_user set_value
  get_signed_in u now old new s0 m = ground (
    arith,
    ap (lookup s0.id) (sessions-update s0.id (write_user u) new s0 m.found),
    lookup-insert s0.id s0.id (write_user u s0) new.sessions,
    m.lasts,
  )

  others_signed_in :
      (u : User) (now : ℕ) (old new : Store (Value A)) (s0 : Session (Value A)) (j : String)
      → IsMade now old new s0
      → s0.id ≢ j
      → lookup j (update_session s0.id (write_user u) new).sessions ≡ lookup j old.sessions
  others_signed_in u now old new s0 j m ne = ground (
    arith,
    ap (lookup j) (sessions-update s0.id (write_user u) new s0 m.found),
    lookup-insert s0.id j (write_user u s0) new.sessions,
    m.others j ne,
  )

  -- What Login writes is read back.
  get_value-write_user :
      (u : User) (s : Session (Value A))
      → (get_value "user_id" (write_user u s) ≡ some (number u.id))
        × (get_value "username" (write_user u s) ≡ some (text u.username))
  unfolding get_value write_user set_value dec_text
  get_value-write_user u s = (
    ground (
      arith,
      lookup-insert "username" "user_id" (text u.username)
          (insert "user_id" (number u.id) s.values),
      lookup-insert "user_id" "user_id" (number u.id) s.values,
    ),
    ground (
      arith,
      lookup-insert "username" "username" (text u.username)
          (insert "user_id" (number u.id) s.values),
    ),
  )

  -- The session of the request is gone once it is dropped.
  lookup-drop_current :
      (cookie : Option String) (now : ℕ) (st : Store (Value A)) (old : Session (Value A))
      → from_request cookie now st ≡ some old
      → lookup old.id (drop_current cookie now st).sessions ≡ none
  unfolding drop_current
  lookup-drop_current cookie now st old e = rw (e, drop_current) (lookup-delete old.id st)

  -- What a login that let a user in leaves behind.
  pub record IsLetIn (cookie : Option String) (now : ℕ) (u : User) (before after : Store (Value A))
      (s : Session (Value A)) : Type ℓ where
    user_id : get_value "user_id" s ≡ some (number u.id)
    username : get_value "username" s ≡ some (text u.username)
    stored : get s.id now after ≡ some s
    dropped :
        (old : Session (Value A))
        → from_request cookie now before ≡ some old
        → s.id ≢ old.id
        → lookup old.id after.sessions ≡ none

  write_user-IsLetIn :
      (cookie : Option String) (now : ℕ) (u : User) (before new : Store (Value A))
      (s0 : Session (Value A))
      → IsMade now (drop_current cookie now before) new s0
      → IsLetIn cookie now u before (update_session s0.id (write_user u) new) (write_user u s0)
  unfolding write_user set_value
  write_user-IsLetIn cookie now u before new s0 m = record {
    user_id = (get_value-write_user u s0).0;
    username = (get_value-write_user u s0).1;
    stored = get_signed_in u now (drop_current cookie now before) new s0 m;
    dropped = λ old e ne.
        others_signed_in u now (drop_current cookie now before) new s0 old.id m ne
        ∙ lookup-drop_current cookie now before old e;
  }

  pub let_in-IsLetIn :
      (cookie fresh : Option String) (key : String) (now : ℕ) (u : User) (st : Auth A)
      (s : Session (Value A))
      → (let_in cookie fresh key now u st).1 ≡ ok s
      → IsLetIn cookie now u st.sessions (let_in cookie fresh key now u st).0.sessions s
  unfolding let_in
  let_in-IsLetIn cookie fresh key now u st s e =
      let (new, s0, m, is, after) =
        sign_in_passed u now fresh (drop_current cookie now st.sessions) _ s e in
      rw (after, is) (write_user-IsLetIn cookie now u st.sessions new s0 m)
