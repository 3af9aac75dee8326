-- ===== src/Throttle/Tests.antt =====
-- Runs of the brake, and its theorems at some logins.
use framework_kyrux.Prelude.{
  ℕ, ◌≡◌, ◌≢◌, refl, String, true, List, [], ◌∷◌, arith, str_eq, eq_iff, dec_text,
}
use framework_kyrux.Prelude.Dict.{lookup, insert, erase}
use framework_kyrux.Throttle.{
  LoginThrottle, set_login_throttle, new_throttle, is_blocked, blocked, sweep_locked, counted, fail,
  reset,
}
use framework_kyrux.Throttle.Events.{Event, checked, failed, succeeded, step, run, tally}
use framework_kyrux.Throttle.Refinement.{blocked_refines}
use framework_kyrux.Throttle.Counting.{failures, blocked_after_failures}

-- Two failures are allowed in 60 seconds.
abbrev brake : LoginThrottle
brake = set_login_throttle 2 0 (new_throttle 0)

abbrev logins : List (ℕ × Event)
logins = (5, failed "ana") ∷ (7, checked "rui") ∷ (8, succeeded "rui") ∷ (9, failed "ana") ∷ []

ana_blocked : (blocked "ana" 10 (run logins brake)).1 ≡ true
unfolding run step blocked fail reset set_login_throttle new_throttle sweep_locked lookup insert
    erase counted dec_text
ana_blocked = refl

blocked_refines_example :
    (blocked "ana" 30 (run logins brake)).1
    ≡ is_blocked brake.max_attempts 30
        (tally "ana" brake.window logins (lookup "ana" brake.records))
unfolding set_login_throttle new_throttle
blocked_refines_example =
    blocked_refines "ana" 0 30 logins brake tt
      (omega arith, (omega arith, (omega arith, (omega arith, omega arith))))

abbrev rui : String
rui = "rui"

rui_not_ana : rui ≢ "ana"
rui_not_ana e = let same : str_eq rui "ana" ≡ true = (eq_iff rui "ana").1 e in ground arith

blocked_after_failures_example : (blocked "ana" 30 (run logins brake)).1 ≡ true
unfolding set_login_throttle new_throttle lookup failures dec_text
blocked_after_failures_example =
    blocked_after_failures "ana" 0 30 logins brake tt refl (omega arith)
      (omega arith, (omega arith, (omega arith, (omega arith, omega arith)))) (omega arith)
      (rui_not_ana, tt)
