-- ===== src/Captcha.antt =====
-- The captcha of a visitor (core/security/captcha/store.go: setCode, Verify; captcha.go: New), over
-- the session store. `as_text` is a value of a session as a text, "" where it is none, and `of_text`
-- a text as a value.
pub mod Spent
pub mod Uses
pub mod Tests
use framework_kyrux.Prelude.{
  ℕ, ◌+◌, ◌%◌, String, Bool, true, false, List, [], ◌∷◌, Option, none, some, ◌&&◌, not, str_eq,
  Result, ok, err,
}
use framework_kyrux.Prelude.Texts.{trim}
use framework_kyrux.Session.{
  Session, Store, SessionError, new_session, from_request, get_value, set_value, delete_value,
  update_session,
}

abbrev pub session_key : String
session_key = "kyrux_captcha_code"

abbrev pub code_length : ℕ
code_length = 5

-- New: the code points of a code, for the random bytes that were read.
unfoldable pub code_of : List ℕ → List ℕ
code_of [] = []
code_of (d ∷ ds) = (b'0' + d % 10) ∷ code_of ds

module _ {ℓ} {A : Type ℓ} (of_text : String → A) where
  -- A code in a session that was made for it; `err` is logged and changes nothing more.
  unfoldable pub set_in_new :
      String → Store A × Result SessionError (Session A) → Store A × Option String
  set_in_new code (st, err e) = (st, none)
  set_in_new code (st, ok s) =
      (update_session s.id (set_value session_key (of_text code)) st, some s.id)

  -- setCode: the store after it, and the cookie that it sets. `fresh` is the random identifier of a
  -- new session.
  unfoldable pub set_code :
      Option String → Option String → ℕ → String → Store A → Store A × Option String
  unfolding set_in_new
  set_code none fresh now code st = set_in_new code (new_session fresh "" now st)
  set_code (some id) fresh now code st = elim (from_request (some id) now st) [
    | none ↦ set_in_new code (new_session fresh "" now st)
    | some s ↦ (update_session id (set_value session_key (of_text code)) st, none)
  ]

module _ {ℓ} {A : Type ℓ} where
  -- The first part of Verify, FromRequest and Get: the session that is found and its code.
  unfoldable pub verify_read : Option String → ℕ → Store A → Option (String × A)
  verify_read none now st = none
  verify_read (some id) now st = elim (from_request (some id) now st) [
    | none ↦ none
    | some s ↦ elim (get_value session_key s) [ none ↦ none | some v ↦ some (id, v) ]
  ]

module _ {ℓ} {A : Type ℓ} (as_text : A → String) where
  unfoldable pub is_answer : String → A → Bool
  is_answer answer v = not (str_eq (as_text v) "") && str_eq (trim answer) (as_text v)

  -- The rest of Verify, Delete and the comparison, for what was read: the lock of the session is
  -- taken again, so steps of other requests may lie between.
  unfoldable pub verify_end : String → String × A → Store A → Store A × Bool
  unfolding is_answer
  verify_end answer (id, v) st =
      (update_session id (delete_value session_key) st, is_answer answer v)

  -- Verify, where nothing comes between its two parts: the store after it, and its answer.
  unfoldable pub verify : Option String → ℕ → String → Store A → Store A × Bool
  unfolding verify_read verify_end
  verify cookie now answer st = elim (verify_read cookie now st) [
    | none ↦ (st, false)
    | some r ↦ verify_end answer r st
  ]
