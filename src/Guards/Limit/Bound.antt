-- ===== src/Guards/Limit/Bound.antt =====
-- How many requests of one address the limit lets through.
use framework_kyrux.Prelude.{
  ℕ, ◌+◌, ◌-◌, ◌*◌, ◌/◌, ◌≤◌, ◌≡◌, refl, ap, inl, inr, String, Bool, true, false, List, [], ◌∷◌,
  Option, none, some, arith, ltb, not, if◌then◌else◌, dec_text, All, Bool-cases,
}
use mathlib.Core.Logic.{ite}
use framework_kyrux.Prelude.Dict.{
  lookup, lookup-insert, lookup-keep, HasDistinctKeys, insert-HasDistinctKeys, keep-HasDistinctKeys,
  keep_value,
}
use framework_kyrux.Guards.Limit.{RlEntry, Limiter, has_ended, sweep_entries, hit, rate_limit}

abbrev pub is_let_through : Option ℕ → ℕ
is_let_through none = 1
is_let_through (some seconds) = 0

-- The requests of an address that are let through, of some requests with their times.
unfoldable pub let_through : ℕ → ℕ → ℕ → String → List (ℕ × String) → Limiter → ℕ
let_through second max window ip [] l = 0
let_through second max window ip ((now, from) ∷ requests) l =
    let step = rate_limit second max window from now l in
    let rest = let_through second max window ip requests step.0 in
    ite (dec_text from ip) (is_let_through step.1) 0 + rest

is_let_through-if :
    (b : Bool) (seconds : ℕ)
    → is_let_through (if b then some seconds else none) ≡ (if b then 0 else 1)
is_let_through-if true seconds = refl
is_let_through-if false seconds = refl

-- What an entry still lets through until a time: its own rest, and a new window after it.
budget : ℕ → ℕ → Option RlEntry → ℕ
budget max end none = max
budget max end (some e) = if ltb e.reset_at end then (max - e.count) + max else max - e.count

budget_le : (max end : ℕ) (o : Option RlEntry) → budget max end o ≤ 2 * max
unfolding budget
budget_le max end none = omega arith
budget_le max end (some e) = ground arith

-- A hit takes one from what is left, where it is let through.
budget-hit :
    (max window start now : ℕ) (o : Option RlEntry)
    → start ≤ now
    → now ≤ start + window
    → (if ltb max (hit window now o).count then 0 else 1)
        + budget max (start + window) (some (hit window now o))
      ≤ budget max (start + window) o
unfolding budget hit
budget-hit max window start now none h k = ground arith
budget-hit max window start now (some e) h k = ground arith

budget-keep :
    (max end now : ℕ) (o : Option RlEntry)
    → now ≤ end
    → budget max end (keep_value (λ e. not (has_ended now e)) o) ≤ budget max end o
unfolding budget
budget-keep max end now none h = omega arith
budget-keep max end now (some e) h = ground arith

IsTimed : ℕ → ℕ → ℕ × String → Type 0
IsTimed start window request = (start ≤ request.0) × (request.0 ≤ start + window)

sweep_entries-HasDistinctKeys :
    (window now : ℕ) (l : Limiter)
    → HasDistinctKeys l.entries
    → HasDistinctKeys (sweep_entries window now l).entries
unfolding sweep_entries
sweep_entries-HasDistinctKeys window now l h = elim (Bool-cases (ltb (l.last_sweep + window) now)) [
  | inl e ↦ rw e (keep-HasDistinctKeys _ l.entries h)
  | inr e ↦ rw e h
]

budget-sweep_entries :
    (max end window now : ℕ) (ip : String) (l : Limiter)
    → HasDistinctKeys l.entries
    → now ≤ end
    → budget max end (lookup ip (sweep_entries window now l).entries)
      ≤ budget max end (lookup ip l.entries)
unfolding sweep_entries
budget-sweep_entries max end window now ip l h k =
    elim (Bool-cases (ltb (l.last_sweep + window) now)) [
      | inl e ↦
          rw (e, lookup-keep (λ v. not (has_ended now v)) ip l.entries h)
            (budget-keep max end now (lookup ip l.entries) k)
      | inr e ↦ rw e (omega arith)
    ]

-- One request takes one from what is left to an address, if it is of the address and let through.
budget-rate_limit :
    (second max window start now : ℕ) (from ip : String) (l : Limiter)
    → HasDistinctKeys l.entries
    → start ≤ now
    → now ≤ start + window
    → ite (dec_text from ip) (is_let_through (rate_limit second max window from now l).1) 0
        + budget max
            (start + window)
            (lookup ip (rate_limit second max window from now l).0.entries)
      ≤ budget max (start + window) (lookup ip l.entries)
unfolding rate_limit
budget-rate_limit second max window start now from ip l h j k =
    let swept = sweep_entries window now l in
    let swept_le = budget-sweep_entries max (start + window) window now ip l h k in
    let e = hit window now (lookup from swept.entries) in
    let hits = budget-hit max window start now (lookup from swept.entries) j k in
    rw (lookup-insert from ip e swept.entries)
      (elim (dec_text from ip)
        as (λ d.
          ite d
              (is_let_through
                (if ltb max e.count then some ((e.reset_at - now) / second + 1) else none))
              0
            + budget max (start + window) (ite d (some e) (lookup ip swept.entries))
          ≤ budget max (start + window) (lookup ip l.entries)) [
            | yes same ↦
                let taken : is_let_through
                        (if ltb max e.count then some ((e.reset_at - now) / second + 1) else none)
                      + budget max (start + window) (some e)
                    ≤ budget max (start + window) (lookup ip l.entries) =
                  omega (
                    arith,
                    hits,
                    swept_le,
                    is_let_through-if (ltb max e.count) ((e.reset_at - now) / second + 1),
                    ap (λ k. budget max (start + window) (lookup k swept.entries)) same,
                  ) in
                taken
            | no other ↦
                let kept : 0 + budget max (start + window) (lookup ip swept.entries)
                    ≤ budget max (start + window) (lookup ip l.entries) =
                  omega (arith, swept_le) in
                kept
          ])

rate_limit-HasDistinctKeys :
    (second max window now : ℕ) (from : String) (l : Limiter)
    → HasDistinctKeys l.entries
    → HasDistinctKeys (rate_limit second max window from now l).0.entries
unfolding rate_limit
rate_limit-HasDistinctKeys second max window now from l h =
    insert-HasDistinctKeys from _ (sweep_entries window now l).entries
      (sweep_entries-HasDistinctKeys window now l h)

let_through-budget :
    (second max window start : ℕ) (ip : String) (requests : List (ℕ × String)) (l : Limiter)
    → HasDistinctKeys l.entries
    → All (IsTimed start window) requests
    → let_through second max window ip requests l
      ≤ budget max (start + window) (lookup ip l.entries)
unfolding let_through IsTimed
let_through-budget second max window start ip [] l h timed = omega arith
let_through-budget second max window start ip ((now, from) ∷ requests) l h timed =
    let rest =
      let_through-budget second max window start ip requests
        (rate_limit second max window from now l).0
        (rate_limit-HasDistinctKeys second max window now from l h) timed.1 in
    omega
      (arith, rest, budget-rate_limit second max window start now from ip l h timed.0.0 timed.0.1)

-- Among requests of any addresses, in any order, whose times lie in a span as long as the window,
-- at most twice `max` of one address are let through, whatever windows were open before, if the
-- entries of the limiter hold each address once.
pub let_through_bounded :
    (second max window start : ℕ) (ip : String) (requests : List (ℕ × String)) (l : Limiter)
    → HasDistinctKeys l.entries
    → All (λ request. (start ≤ request.0) × (request.0 ≤ start + window)) requests
    → let_through second max window ip requests l ≤ 2 * max
unfolding IsTimed
let_through_bounded second max window start ip requests l h timed = omega (
  arith,
  let_through-budget second max window start ip requests l h timed,
  budget_le max (start + window) (lookup ip l.entries),
)
