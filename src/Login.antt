-- ===== src/Login.antt =====
-- Logging in and out (core/security/auth/login.go: Login, Logout, GetUser), over the session store
-- and the brake on failed logins. The database and the password check are parameters: `find_user`
-- is the lookup of a user by the login column, `none` where it fails.
pub mod NewSession
pub mod Outcomes
pub mod Redirect
pub mod RedirectTests
pub mod Tests
use framework_kyrux.Prelude.{
  ℕ, String, Bool, true, false, List, Option, none, some, if◌then◌else◌, not, ◌<>◌, Result, ok, err,
}
use framework_kyrux.Session.{
  Session, Store, SessionError, new_session, delete, from_request, get_value, set_value,
  update_session,
}
use framework_kyrux.Throttle.{LoginThrottle, blocked, fail, reset}

-- What a session holds: what Login writes, and what the application does.
pub data Value {ℓ} (A : Type ℓ) : Type ℓ where
  number : ℕ → Value A
  text : String → Value A
  other : A → Value A

-- The fields of User that logging in reads.
pub record User : Type 0 where
  pub id : ℕ
  pub username : String
  pub password_hash : String
  pub is_active : Bool

pub record Auth {ℓ} (A : Type ℓ) : Type ℓ where
  pub throttle : LoginThrottle
  pub sessions : Store (Value A)

pub data LoginError : Type 0 where
  auth_disabled too_many_attempts user_not_found inactive_user wrong_password : LoginError
  no_session : SessionError → LoginError

abbrev pub throttle_key : String → String → String
throttle_key login ip = login <> ("|" <> ip)

module _ {ℓ} {A : Type ℓ} where
  -- A refusal counts as a failed attempt.
  unfoldable pub refuse :
      String → ℕ → LoginError → Auth A → Auth A × Result LoginError (Session (Value A))
  refuse key now e st = (record st { throttle = fail key now st.throttle }, err e)

  -- The session of the request is dropped, if there is one.
  unfoldable pub drop_current : Option String → ℕ → Store (Value A) → Store (Value A)
  drop_current cookie now sessions = elim (from_request cookie now sessions) [
    | none ↦ sessions
    | some old ↦ delete old.id sessions
  ]

  -- What Login writes into the new session.
  unfoldable pub write_user : User → Session (Value A) → Session (Value A)
  write_user u s = set_value "username" (text u.username) (set_value "user_id" (number u.id) s)

  -- What follows the making of a session.
  unfoldable pub sign_in :
      User
      → Store (Value A) × Result SessionError (Session (Value A))
      → Auth A
      → Auth A × Result LoginError (Session (Value A))
  sign_in u (sessions, err e) st = (record st { sessions = sessions }, err (no_session e))
  sign_in u (sessions, ok s) st =
      (record st { sessions = update_session s.id (write_user u) sessions }, ok (write_user u s))

  unfoldable pub let_in :
      Option String
      → Option String
      → String
      → ℕ
      → User
      → Auth A
      → Auth A × Result LoginError (Session (Value A))
  let_in cookie fresh key now u st =
      sign_in u (new_session fresh "" now (drop_current cookie now st.sessions))
        (record st { throttle = reset key st.throttle })

  -- Logout
  unfoldable pub logout : Option String → ℕ → Auth A → Auth A
  logout cookie now st = record st { sessions = drop_current cookie now st.sessions }

-- GetUser, up to the query that it sends for the number it returns.
unfoldable pub current_user_id {ℓ} : {A : Type ℓ} → Option String → ℕ → Store (Value A) → Option ℕ
current_user_id cookie now sessions = elim (from_request cookie now sessions) [
  | none ↦ none
  | some s ↦ elim (get_value "user_id" s) [
    | none ↦ none
    | some v ↦ elim v [ number n ↦ some n | _ ↦ none ]
  ]
]

module _ {ℓ} {A : Type ℓ} (find_user : String → Option User)
    (check_password : String → String → Bool) where
  -- The part of Login behind the brake. `fresh` is the random identifier of a new session.
  unfoldable pub authenticate :
      Option String
      → Option String
      → String
      → ℕ
      → String
      → String
      → Auth A
      → Auth A × Result LoginError (Session (Value A))
  authenticate cookie fresh key now login password st = elim (find_user login) [
    | none ↦ refuse key now user_not_found st
    | some u ↦
        if not u.is_active
        then refuse key now inactive_user st
        else if not (check_password password u.password_hash)
        then refuse key now wrong_password st
        else let_in cookie fresh key now u st
  ]

  unfoldable pub login :
      Bool
      → Option String
      → Option String
      → String
      → ℕ
      → String
      → String
      → Auth A
      → Auth A × Result LoginError (Session (Value A))
  login enabled cookie fresh ip now name password st =
      let key = throttle_key name ip in
      let braked = record st { throttle = (blocked key now st.throttle).0 } in
      if not enabled
      then (st, err auth_disabled)
      else if (blocked key now st.throttle).1
      then (braked, err too_many_attempts)
      else authenticate cookie fresh key now name password braked
