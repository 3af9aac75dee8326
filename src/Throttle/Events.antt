-- ===== src/Throttle/Events.antt =====
-- What logins do to the brake, and what one key sees of it: a count that knows neither the other
-- keys nor the sweep.
use framework_kyrux.Prelude.{ℕ, ◌≤◌, String, List, [], ◌∷◌, Option, none, some, not, dec_text}
use mathlib.Core.Logic.{ite}
use framework_kyrux.Prelude.Dict.{keep_value}
use framework_kyrux.Throttle.{AttemptRecord, LoginThrottle, is_over, blocked, counted, fail, reset}

pub data Event : Type 0 where
  checked failed succeeded : String → Event

unfoldable pub step : ℕ → Event → LoginThrottle → LoginThrottle
step now (checked key) t = (blocked key now t).0
step now (failed key) t = fail key now t
step now (succeeded key) t = reset key t

-- Events with their times, the earliest first.
unfoldable pub run : List (ℕ × Event) → LoginThrottle → LoginThrottle
run [] t = t
run ((now, e) ∷ es) t = run es (step now e t)

-- The times do not go back, from `now` to `later`.
abbrev pub AreOrdered : ℕ → ℕ → List (ℕ × Event) → Type 0
AreOrdered now later [] = now ≤ later
AreOrdered now later ((at, e) ∷ es) = (now ≤ at) × AreOrdered at later es

-- The record of one key after an event.
unfoldable pub tally_step : String → ℕ → ℕ → Event → Option AttemptRecord → Option AttemptRecord
tally_step key window now (checked k) r = r
tally_step key window now (failed k) r = ite (dec_text k key) (some (counted window now r)) r
tally_step key window now (succeeded k) r = ite (dec_text k key) none r

unfoldable pub tally : String → ℕ → List (ℕ × Event) → Option AttemptRecord → Option AttemptRecord
tally key window [] r = r
tally key window ((now, e) ∷ es) r = tally key window es (tally_step key window now e r)

-- A record counts until its time is over.
abbrev pub current : ℕ → Option AttemptRecord → Option AttemptRecord
current now r = keep_value (λ a. not (is_over now a)) r
