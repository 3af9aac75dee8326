-- ===== src/Login/Tests.antt =====
-- A login of a known user with a session of the visitor's, and one with a wrong password.
use framework_kyrux.Prelude.{
  ℕ, ◌≡◌, refl, sym, subst, String, true, false, [], ◌∷◌, Option, none, some, arith, ok, str_eq,
  if◌then◌else◌, dec_text,
}
use framework_kyrux.Prelude.Dict.{lookup, insert, erase}
use framework_kyrux.Session.{
  Session, new_store, new_session, add_session, delete, drop_session, get, from_request, set_value,
  update_session,
}
use framework_kyrux.Throttle.{new_throttle, blocked, sweep_locked, fail}
use framework_kyrux.Login.{
  Value, number, text, User, Auth, throttle_key, drop_current, write_user, sign_in, let_in,
  authenticate, login,
}
use framework_kyrux.Login.NewSession.{IsLetIn}
use framework_kyrux.Login.Outcomes.{login_lets_in, login_failure_counts}

abbrev ana : User
ana = record { id = 7; username = "ana"; password_hash = "secret"; is_active = true }

abbrev find_user : String → Option User
find_user name = if str_eq name "ana" then some ana else none

abbrev visited : Auth ℕ
visited = record {
  throttle = new_throttle 0;
  sessions = (new_session (some "old") "" 0 (new_store 60)).0;
}

abbrev signed_in : Session (Value ℕ)
signed_in = record {
  id = "new";
  user_key = "";
  values = ("user_id", number 7) ∷ ("username", text "ana") ∷ [];
  expires = 65;
}

ana_let_in :
    (login find_user str_eq true (some "old") (some "new") "::1" 5 "ana" "secret" visited).1
    ≡ ok signed_in
unfolding login new_throttle blocked lookup sweep_locked authenticate let_in sign_in new_session
    drop_current from_request get new_store add_session insert dec_text delete drop_session erase
    write_user set_value update_session
ana_let_in = refl

ana_free : (blocked (throttle_key "ana" "::1") 5 visited.throttle).1 ≡ false
unfolding blocked new_throttle sweep_locked lookup
ana_free = refl

login_lets_in_example :
    (true ≡ true)
    × ((blocked (throttle_key "ana" "::1") 5 visited.throttle).1 ≡ false)
    × ((u : User) × (find_user "ana" ≡ some u)
        × (u.is_active ≡ true)
        × (str_eq "secret" u.password_hash ≡ true)
        × IsLetIn
            (some "old")
            5
            u
            visited.sessions
            (login find_user str_eq true
              (some "old")
              (some "new")
              "::1"
              5
              "ana"
              "secret"
              visited).0.sessions
            signed_in)
login_lets_in_example =
    login_lets_in find_user str_eq true (some "old") (some "new") "::1" 5 "ana" "secret" visited
      signed_in ana_let_in

password_wrong :
    (u : User)
    → find_user "ana" ≡ some u
    → str_eq "guess" u.password_hash ≡ true
    → u.is_active ≡ false
password_wrong u f c =
    let same : "secret" ≡ u.password_hash = ground arith in
    let right : str_eq "guess" "secret" ≡ true =
      subst (λ h. str_eq "guess" h ≡ true) (sym same) c in
    absurd (ground arith)

login_failure_counts_example :
    ((login find_user str_eq true none (some "new") "::1" 5 "ana" "guess" visited).0.throttle
      ≡ fail (throttle_key "ana" "::1") 5 (blocked (throttle_key "ana" "::1") 5 visited.throttle).0)
    × ((login find_user str_eq true none (some "new") "::1" 5 "ana" "guess" visited).0.sessions
        ≡ visited.sessions)
login_failure_counts_example =
    login_failure_counts find_user str_eq none (some "new") "::1" 5 "ana" "guess" visited ana_free
      password_wrong
