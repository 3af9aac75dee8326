-- ===== src/Guards/Limit.antt =====
-- The limit on requests of one address (RateLimit in core/security/middleware/middleware.go). The
-- lock makes each request one step; its time and the address are arguments.
pub mod Bound
use framework_kyrux.Prelude.{
  ℕ, suc, ◌+◌, ◌-◌, ◌/◌, String, Bool, true, false, [], Option, none, some, ltb, not, if◌then◌else◌,
}
use framework_kyrux.Prelude.Dict.{Dict, lookup, insert, keep}

-- rlEntry
pub record RlEntry : Type 0 where
  pub count : ℕ
  pub reset_at : ℕ

-- The variables that the middleware closes over
pub record Limiter : Type 0 where
  pub entries : Dict RlEntry
  pub last_sweep : ℕ

unfoldable pub new_limiter : ℕ → Limiter
new_limiter now = record { entries = []; last_sweep = now }

-- now.After(e.reset_at)
abbrev pub has_ended : ℕ → RlEntry → Bool
has_ended now e = ltb e.reset_at now

unfoldable pub sweep_entries : ℕ → ℕ → Limiter → Limiter
sweep_entries window now l =
    if ltb (l.last_sweep + window) now
    then record { entries = keep (λ e. not (has_ended now e)) l.entries; last_sweep = now }
    else l

-- The entry of an address after one more request.
unfoldable pub hit : ℕ → ℕ → Option RlEntry → RlEntry
hit window now none = record { count = 1; reset_at = now + window }
hit window now (some e) =
    if has_ended now e
    then record { count = 1; reset_at = now + window }
    else record e { count = suc e.count }

-- One request: the limiter after it, and for a refusal the seconds of Retry-After. `second` is the
-- number of units of time in a second.
unfoldable pub rate_limit : ℕ → ℕ → ℕ → String → ℕ → Limiter → Limiter × Option ℕ
unfolding sweep_entries hit
rate_limit second max window ip now l =
    let swept = sweep_entries window now l in
    let e = hit window now (lookup ip swept.entries) in
    (
      record swept { entries = insert ip e swept.entries },
      if ltb max e.count then some ((e.reset_at - now) / second + 1) else none,
    )
