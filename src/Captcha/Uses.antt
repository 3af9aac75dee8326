-- ===== src/Captcha/Uses.antt =====
-- A code is set, and used once.
use framework_kyrux.Prelude.{
  ℕ, ◌≤◌, ◌≡◌, refl, sym, ap, ◌∙◌, inl, inr, String, true, false, Option, none, some, arith,
  if◌then◌else◌, Bool-cases, Option-cases, dec_text,
}
use mathlib.Core.Logic.{ite}
use framework_kyrux.Prelude.Dict.{lookup, lookup-insert, lookup-erase}
use framework_kyrux.Session.{
  Session, Store, expired, get, from_request, get_value, set_value, delete_value, update_session,
}
use framework_kyrux.Captcha.{session_key, set_code, is_answer, verify_read, verify_end, verify}
use framework_kyrux.Captcha.Spent.{Passes, IsSpent, Passes-IsSpent}

module _ {ℓ} {A : Type ℓ} where
  -- The code that waits in the session of an identifier.
  unfoldable pub coded : String → ℕ → Store A → Option A
  coded id now st = elim (get id now st) [ none ↦ none | some s ↦ get_value session_key s ]

  same_key : (d : Dec (session_key ≡ session_key)) (a b : Option A) → ite d a b ≡ a
  same_key (yes e) a b = refl
  same_key (no n) a b = absurd (n refl)

  same_id : (id : String) (d : Dec (id ≡ id)) (a b : Option (Session A)) → ite d a b ≡ a
  same_id id (yes e) a b = refl
  same_id id (no n) a b = absurd (n refl)

  -- A session that is changed and stays as long is found changed.
  get-update_session :
      (id : String) (later : ℕ) (f : Session A → Session A) (st : Store A) (s : Session A)
      → lookup id st.sessions ≡ some s
      → get id later (update_session id f st) ≡ (if expired later (f s) then none else some (f s))
  unfolding get update_session
  get-update_session id later f st s h =
      rw
        (
          h,
          update_session,
          get,
          lookup-insert id id (f s) st.sessions,
          same_id id (dec_text id id) (some (f s)) (lookup id st.sessions),
        )
        refl

  coded_of :
      (id : String) (now : ℕ) (st : Store A) (o : Option (Session A))
      → get id now st ≡ o
      → coded id now st ≡ (elim o [ none ↦ none | some s ↦ get_value session_key s ])
  unfolding coded
  coded_of id now st o h = ap (λ p. elim p [ none ↦ none | some s ↦ get_value session_key s ]) h

  -- The session that get finds is stored and has not expired.
  get-found :
      (id : String) (now : ℕ) (st : Store A) (s : Session A)
      → get id now st ≡ some s
      → (lookup id st.sessions ≡ some s) × (expired now s ≡ false)
  unfolding get
  get-found id now st s h = ground arith

  uncoded-IsSpent :
      (id : String) (now : ℕ) (st : Store A) → coded id now st ≡ none → IsSpent id now st
  unfolding coded get
  uncoded-IsSpent id now st h s e = elim (Bool-cases (expired now s)) [
    | inl gone ↦ inl gone
    | inr alive ↦ inr (ground arith)
  ]

  spent-uncoded :
      (id : String) (now : ℕ) (st : Store A) → IsSpent id now st → coded id now st ≡ none
  spent-uncoded id now st h = elim (Option-cases (get id now st)) [
    | inl e ↦ coded_of id now st none e
    | inr (s, e) ↦
        let (at, alive) = get-found id now st s e in
        coded_of id now st (some s) e
        ∙ (elim (h s at) [ inl gone ↦ absurd (ground arith) | inr empty ↦ empty ])
  ]

  -- No code waits after one was deleted.
  coded-deleted :
      (id : String) (later : ℕ) (st : Store A) (s : Session A)
      → lookup id st.sessions ≡ some s
      → coded id later (update_session id (delete_value session_key) st) ≡ none
  unfolding delete_value get_value
  coded-deleted id later st s h =
      let found = get-update_session id later (delete_value session_key) st s h in
      let gone =
        lookup-erase session_key session_key s.values
        ∙ same_key (dec_text session_key session_key) none (lookup session_key s.values) in
      elim (Bool-cases (expired later (delete_value session_key s))) [
        | inl e ↦ coded_of id later _ none (found ∙ rw e refl)
        | inr e ↦ coded_of id later _ (some (delete_value session_key s)) (found ∙ rw e refl) ∙ gone
      ]

  -- A code that was set waits for as long as its session lasts.
  coded-set :
      (id : String) (later : ℕ) (v : A) (st : Store A) (s : Session A)
      → lookup id st.sessions ≡ some s
      → expired later s ≡ false
      → coded id later (update_session id (set_value session_key v) st) ≡ some v
  unfolding set_value get_value
  coded-set id later v st s h alive =
      let found = get-update_session id later (set_value session_key v) st s h in
      coded_of id later _ (some (set_value session_key v s)) (found ∙ rw alive refl)
      ∙ lookup-insert session_key session_key v s.values
      ∙ same_key (dec_text session_key session_key) (some v) (lookup session_key s.values)

  -- A code that setCode puts into the session of a visitor waits there for as long as the session
  -- lasts.
  set_code-coded :
      (of_text : String → A) (id code : String) (fresh : Option String) (now later : ℕ)
      (st : Store A) (s : Session A)
      → get id now st ≡ some s
      → expired later s ≡ false
      → coded id later (set_code of_text (some id) fresh now code st).0 ≡ some (of_text code)
  unfolding set_code from_request
  set_code-coded of_text id code fresh now later st s e alive =
      rw (e, set_code) (coded-set id later (of_text code) st s (get-found id now st s e).0 alive)

  read-none :
      (id : String) (now : ℕ) (st : Store A)
      → coded id now st ≡ none
      → verify_read (some id) now st ≡ none
  unfolding verify_read from_request coded
  read-none id now st h = elim (Option-cases (get id now st)) [
    | inl e ↦ rw (e, verify_read) refl
    | inr (s, e) ↦
        let absent : get_value session_key s ≡ none = sym (coded_of id now st (some s) e) ∙ h in
        rw (e, absent, verify_read) refl
  ]

  read-some :
      (id : String) (now : ℕ) (st : Store A) (v : A)
      → coded id now st ≡ some v
      → verify_read (some id) now st ≡ some (id, v)
  unfolding verify_read from_request
  read-some id now st v h = elim (Option-cases (get id now st)) [
    | inl e ↦ absurd (let bad = sym (coded_of id now st none e) ∙ h in ground arith)
    | inr (s, e) ↦
        let present : get_value session_key s ≡ some v = sym (coded_of id now st (some s) e) ∙ h in
        rw (e, present, verify_read) refl
  ]

  module _ (as_text : A → String) where
    verify-none :
        (id answer : String) (now : ℕ) (st : Store A)
        → coded id now st ≡ none
        → verify as_text (some id) now answer st ≡ (st, false)
    unfolding verify
    verify-none id answer now st h = rw (read-none id now st h, verify) refl

    verify-some :
        (id answer : String) (now : ℕ) (st : Store A) (v : A)
        → coded id now st ≡ some v
        → (verify as_text (some id) now answer st
            ≡ (update_session id (delete_value session_key) st, is_answer as_text answer v))
          × ((s : Session A) × (lookup id st.sessions ≡ some s))
    unfolding verify verify_end
    verify-some id answer now st v h = elim (Option-cases (get id now st)) [
      | inl e ↦ absurd (let bad = sym (coded_of id now st none e) ∙ h in ground arith)
      | inr (s, e) ↦ (rw (read-some id now st v h, verify) refl, (s, (get-found id now st s e).0))
    ]

    -- The session of a visitor has no code any more when a Verify has taken it.
    verified-IsSpent :
        (id answer : String) (now : ℕ) (st : Store A)
        → IsSpent id now (verify as_text (some id) now answer st).0
    verified-IsSpent id answer now st = elim (Option-cases (coded id now st)) [
      | inl e ↦ rw (verify-none id answer now st e) (uncoded-IsSpent id now st e)
      | inr (v, e) ↦
          let (used, (s, at)) = verify-some id answer now st v e in
          rw used (uncoded-IsSpent id now _ (coded-deleted id now st s at))
    ]

    -- The code of a visitor with a session serves once, if the calls of Verify do not overlap. Verify
    -- answers yes exactly when a code waits in the session and the answer, trimmed, is that code and
    -- not empty. After that, whether the answer was right or wrong, every Verify that begins later
    -- answers no, whatever requests, the sweep and time do between, as long as none of them sets a
    -- code in the session.
    pub verify_once :
        (id answer other : String) (now later : ℕ) (st after : Store A)
        → Passes id now (verify as_text (some id) now answer st).0 later after
        → ((verify as_text (some id) now answer st).1
            ≡ (elim (coded id now st) [ none ↦ false | some v ↦ is_answer as_text answer v ]))
          × ((verify as_text (some id) later other after).1 ≡ false)
    verify_once id answer other now later st after passes = (judged, spent)
      where
        judged :
            (verify as_text (some id) now answer st).1
            ≡ (elim (coded id now st) [ none ↦ false | some v ↦ is_answer as_text answer v ])
        judged = elim (Option-cases (coded id now st)) [
          | inl e ↦ rw (e, verify-none id answer now st e) refl
          | inr (v, e) ↦ rw (e, (verify-some id answer now st v e).0) refl
        ]

        spent : (verify as_text (some id) later other after).1 ≡ false
        spent =
            let none_left =
              Passes-IsSpent id now _ later after passes (verified-IsSpent id answer now st) in
            rw (verify-none id other later after (spent-uncoded id later after none_left)) refl

    -- Calls of Verify that overlap can all use one code: where a code waits at two times, calls that
    -- read it at these times, before either has deleted it, both accept a right answer to it. A call
    -- that reads it after the first has ended finds none.
    pub verify_twice :
        (id first second : String) (now later : ℕ) (st : Store A) (v : A)
        → now ≤ later
        → coded id now st ≡ some v
        → coded id later st ≡ some v
        → is_answer as_text first v ≡ true
        → is_answer as_text second v ≡ true
        → (r t : String × A) × (verify_read (some id) now st ≡ some r)
          × (verify_read (some id) later st ≡ some t)
          × ((verify_end as_text first r st).1 ≡ true)
          × ((verify_end as_text second t (verify_end as_text first r st).0).1 ≡ true)
          × (verify_read (some id) later (verify_end as_text first r st).0 ≡ none)
    unfolding verify_end
    verify_twice id first second now later st v le waits still one two =
        let (s, at) = (verify-some id first now st v waits).1 in
        (
          (id, v),
          (id, v),
          read-some id now st v waits,
          read-some id later st v still,
          one,
          two,
          read-none id later _ (coded-deleted id later st s at),
        )
