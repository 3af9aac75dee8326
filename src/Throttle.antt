-- ===== src/Throttle.antt =====
-- The brake on failed logins (core/security/auth/throttle.go). A key is a login with an address. The
-- lock makes every operation one step; the time is an argument.
pub mod Events
pub mod Refinement
pub mod Counting
pub mod Tests
use framework_kyrux.Prelude.{
  ℕ, ◌+◌, String, Bool, false, [], Option, none, some, ltb, leb, if◌then◌else◌, not,
}
use framework_kyrux.Prelude.Dict.{Dict, lookup, insert, erase, keep}

-- attemptRecord
pub record AttemptRecord : Type 0 where
  pub count : ℕ
  pub reset_at : ℕ

-- loginThrottle
pub record LoginThrottle : Type 0 where
  pub records : Dict AttemptRecord
  pub max_attempts : ℕ
  pub window : ℕ
  pub last_sweep : ℕ

-- The value of `throttle` that the package starts with; a minute in seconds.
unfoldable pub new_throttle : ℕ → LoginThrottle
new_throttle now = record { records = []; max_attempts = 10; window = 60; last_sweep = now }

-- SetLoginThrottle: a number that is not positive, here 0, leaves the setting.
unfoldable pub set_login_throttle : ℕ → ℕ → LoginThrottle → LoginThrottle
set_login_throttle max_attempts window t = record t {
  max_attempts = if ltb 0 max_attempts then max_attempts else t.max_attempts;
  window = if ltb 0 window then window else t.window;
}

-- now.After(r.resetAt)
abbrev pub is_over : ℕ → AttemptRecord → Bool
is_over now r = ltb r.reset_at now

unfoldable pub sweep_locked : ℕ → LoginThrottle → LoginThrottle
sweep_locked now t =
    if ltb now (t.last_sweep + t.window)
    then t
    else record t { records = keep (λ r. not (is_over now r)) t.records; last_sweep = now }

-- The answer of `blocked` for the record of a key.
unfoldable pub is_blocked : ℕ → ℕ → Option AttemptRecord → Bool
is_blocked max_attempts now none = false
is_blocked max_attempts now (some r) = if is_over now r then false else leb max_attempts r.count

unfoldable pub blocked : String → ℕ → LoginThrottle → LoginThrottle × Bool
unfolding is_blocked
blocked key now t =
    let swept = sweep_locked now t in
    (swept, is_blocked swept.max_attempts now (lookup key swept.records))

-- The record of a key after one more failure.
unfoldable pub counted : ℕ → ℕ → Option AttemptRecord → AttemptRecord
counted window now none = record { count = 1; reset_at = now + window }
counted window now (some r) =
    if is_over now r
    then record { count = 1; reset_at = now + window }
    else record r { count = r.count + 1 }

unfoldable pub fail : String → ℕ → LoginThrottle → LoginThrottle
fail key now t = record t {
  records = insert key (counted t.window now (lookup key t.records)) t.records;
}

unfoldable pub reset : String → LoginThrottle → LoginThrottle
reset key t = record t { records = erase key t.records }
