-- ===== src/Login/Outcomes.antt =====
-- What a login asks for, and what a refused one leaves behind.
use framework_kyrux.Prelude.{
  ℕ, ◌≡◌, refl, sym, ap, ◌∙◌, inl, inr, String, Bool, true, false, Option, some, arith, ok,
  Bool-cases, Option-cases,
}
use framework_kyrux.Session.{Session}
use framework_kyrux.Throttle.{blocked, fail}
use framework_kyrux.Login.{Value, User, Auth, throttle_key, refuse, let_in, authenticate, login}
use framework_kyrux.Login.NewSession.{IsLetIn, let_in-IsLetIn}

module _ {ℓ} {A : Type ℓ} (find_user : String → Option User)
    (check_password : String → String → Bool) where
  login_passed :
      (enabled : Bool) (cookie fresh : Option String) (ip : String) (now : ℕ)
      (name password : String) (st : Auth A) (s : Session (Value A))
      → (login find_user check_password enabled cookie fresh ip now name password st).1 ≡ ok s
      → (enabled ≡ true)
        × ((blocked (throttle_key name ip) now st.throttle).1 ≡ false)
        × (login find_user check_password enabled cookie fresh ip now name password st
            ≡ authenticate find_user check_password cookie fresh
                (throttle_key name ip)
                now
                name
                password
                (record st { throttle = (blocked (throttle_key name ip) now st.throttle).0 }))
  unfolding login
  login_passed false cookie fresh ip now name password st s e = absurd (ground arith)
  login_passed true cookie fresh ip now name password st s e =
      elim (Bool-cases (blocked (throttle_key name ip) now st.throttle).1) [
        | inl b ↦ let refused = rw (b, login) at e in absurd (ground arith)
        | inr b ↦ (refl, b, rw b refl)
      ]

  authenticate_passed :
      (cookie fresh : Option String) (key : String) (now : ℕ) (name password : String) (st : Auth A)
      (s : Session (Value A))
      → (authenticate find_user check_password cookie fresh key now name password st).1 ≡ ok s
      → (u : User) × (find_user name ≡ some u)
        × (u.is_active ≡ true)
        × (check_password password u.password_hash ≡ true)
        × (authenticate find_user check_password cookie fresh key now name password st
            ≡ let_in cookie fresh key now u st)
  unfolding authenticate refuse
  authenticate_passed cookie fresh key now name password st s e =
      elim (Option-cases (find_user name)) [
        | inl f ↦ let refused = rw (f, authenticate) at e in absurd (ground arith)
        | inr (u, f) ↦ elim (Bool-cases u.is_active) [
          | inr a ↦ let refused = rw (f, authenticate, a) at e in absurd (ground arith)
          | inl a ↦ elim (Bool-cases (check_password password u.password_hash)) [
            | inr c ↦ let refused = rw (f, authenticate, a, c) at e in absurd (ground arith)
            | inl c ↦ (u, f, a, c, rw (f, authenticate, a, c) refl)
          ]
        ]
      ]

  -- A login that returns a session was enabled and not blocked, and is of an active user that the
  -- database found, with the password that was given. The session carries the user's number and
  -- name and is in the store under its identifier; the session of the request, if there was one
  -- and it had another identifier, is gone.
  pub login_lets_in :
      (enabled : Bool) (cookie fresh : Option String) (ip : String) (now : ℕ)
      (name password : String) (st : Auth A) (s : Session (Value A))
      → (login find_user check_password enabled cookie fresh ip now name password st).1 ≡ ok s
      → (enabled ≡ true)
        × ((blocked (throttle_key name ip) now st.throttle).1 ≡ false)
        × ((u : User) × (find_user name ≡ some u)
            × (u.is_active ≡ true)
            × (check_password password u.password_hash ≡ true)
            × IsLetIn cookie now u st.sessions
                (login find_user check_password enabled cookie fresh ip now name password
                  st).0.sessions
                s)
  login_lets_in enabled cookie fresh ip now name password st s e =
      let (on, free, same) = login_passed enabled cookie fresh ip now name password st s e in
      let braked : Auth A = record st {
        throttle = (blocked (throttle_key name ip) now st.throttle).0;
      } in
      let (u, found, active, right, let_u) =
        authenticate_passed cookie fresh (throttle_key name ip) now name password braked s
          (sym (ap (λ r. r.1) same) ∙ e) in
      let all = same ∙ let_u in
      (
        on,
        free,
        (
          u,
          found,
          active,
          right,
          rw all (
              let_in-IsLetIn cookie fresh (throttle_key name ip) now u braked s
                (sym (ap (λ r. r.1) all) ∙ e)),
        ),
      )

  -- A login that is enabled and not blocked, of a name whose user is not found, is not active or
  -- has another password, counts as a failure of its key and leaves the sessions as they are.
  pub login_failure_counts :
      (cookie fresh : Option String) (ip : String) (now : ℕ) (name password : String) (st : Auth A)
      → (blocked (throttle_key name ip) now st.throttle).1 ≡ false
      → ((u : User)
          → find_user name ≡ some u
          → check_password password u.password_hash ≡ true
          → u.is_active ≡ false)
      → let after = (login find_user check_password true cookie fresh ip now name password st).0 in
        (after.throttle
          ≡ fail (throttle_key name ip) now (blocked (throttle_key name ip) now st.throttle).0)
        × (after.sessions ≡ st.sessions)
  unfolding login authenticate refuse
  login_failure_counts cookie fresh ip now name password st free wrong =
      elim (Option-cases (find_user name)) [
        | inl f ↦ rw (free, f, authenticate) (refl, refl)
        | inr (u, f) ↦ elim (Bool-cases u.is_active) [
          | inr a ↦ rw (free, f, authenticate, a) (refl, refl)
          | inl a ↦ elim (Bool-cases (check_password password u.password_hash)) [
            | inr c ↦ rw (free, f, authenticate, a, c) (refl, refl)
            | inl c ↦ let inactive = wrong u f c in absurd (ground arith)
          ]
        ]
      ]
