-- ===== src/Throttle/Refinement.antt =====
-- The brake answers as the count of the key alone does: sweeping and the other keys change nothing.
use framework_kyrux.Prelude.{
  ℕ, ◌+◌, ◌≤◌, ◌≡◌, refl, sym, subst, ◌∙◌, ap, inl, inr, String, List, [], ◌∷◌, Option, none, some,
  arith, ltb, not, dec_text, Bool-cases,
}
use framework_kyrux.Prelude.Dict.{
  lookup, HasDistinctKeys, lookup-insert, lookup-erase, lookup-keep, insert-HasDistinctKeys,
  erase-HasDistinctKeys, keep-HasDistinctKeys,
}
use framework_kyrux.Throttle.{
  AttemptRecord, LoginThrottle, is_over, sweep_locked, is_blocked, blocked, counted, fail, reset,
}
use framework_kyrux.Throttle.Events.{
  Event, checked, failed, succeeded, step, run, AreOrdered, tally_step, tally, current,
}

-- At a time, the brake holds for the key what the count says, as far as it still counts.
record Holds (key : String) (now : ℕ) (r : Option AttemptRecord) (t : LoginThrottle) : Type 0 where
  distinct : HasDistinctKeys t.records
  same : current now (lookup key t.records) ≡ current now r

later-current :
    (now later : ℕ) (r : Option AttemptRecord)
    → now ≤ later
    → current later (current now r) ≡ current later r
later-current now later none h = refl
later-current now later (some a) h = ground arith

later-Holds :
    (key : String) (now later : ℕ) (r : Option AttemptRecord) (t : LoginThrottle)
    → now ≤ later
    → Holds key now r t
    → Holds key later r t
later-Holds key now later r t h v = record {
  distinct = v.distinct;
  same =
      sym (later-current now later (lookup key t.records) h)
      ∙ ap (current later) v.same
      ∙ later-current now later r h;
}

-- A sweep takes only what no longer counts.
sweep-Holds :
    (key : String) (now : ℕ) (r : Option AttemptRecord) (t : LoginThrottle)
    → Holds key now r t
    → Holds key now r (sweep_locked now t)
unfolding sweep_locked
sweep-Holds key now r t v = elim (Bool-cases (ltb now (t.last_sweep + t.window))) [
  | inl e ↦ rw e v
  | inr e ↦ rw e (record {
    distinct = keep-HasDistinctKeys (λ a. not (is_over now a)) t.records v.distinct;
    same =
        ap (current now) (lookup-keep (λ a. not (is_over now a)) key t.records v.distinct)
        ∙ later-current now now (lookup key t.records) (omega arith)
        ∙ v.same;
  })
]

-- The next count depends on what still counts alone.
counted-current :
    (window now : ℕ) (r : Option AttemptRecord)
    → counted window now (current now r) ≡ counted window now r
unfolding counted
counted-current window now none = refl
counted-current window now (some a) = ground arith

counted-same :
    (window now : ℕ) (r s : Option AttemptRecord)
    → current now r ≡ current now s
    → counted window now r ≡ counted window now s
counted-same window now r s e =
    sym (counted-current window now r) ∙ ap (counted window now) e ∙ counted-current window now s

step-Holds :
    (key : String) (now : ℕ) (e : Event) (r : Option AttemptRecord) (t : LoginThrottle)
    → Holds key now r t
    → Holds key now (tally_step key t.window now e r) (step now e t)
unfolding step tally_step blocked fail reset
step-Holds key now (checked k) r t v = sweep-Holds key now r t v
step-Holds key now (failed k) r t v = record {
  distinct = insert-HasDistinctKeys k _ t.records v.distinct;
  same = elim (dec_text k key) [
    | yes e ↦ ground (
      arith,
      lookup-insert k key (counted t.window now (lookup k t.records)) t.records,
      counted-same t.window now (lookup key t.records) r v.same,
    )
    | no e ↦
        ground
          (arith, lookup-insert k key (counted t.window now (lookup k t.records)) t.records, v.same)
  ];
}
step-Holds key now (succeeded k) r t v = record {
  distinct = erase-HasDistinctKeys k t.records v.distinct;
  same = ground (arith, lookup-erase k key t.records, v.same);
}

-- No event touches the settings.
step-settings :
    (now : ℕ) (e : Event) (t : LoginThrottle)
    → ((step now e t).window ≡ t.window) × ((step now e t).max_attempts ≡ t.max_attempts)
unfolding step blocked fail reset sweep_locked
step-settings now (checked k) t = elim (Bool-cases (ltb now (t.last_sweep + t.window))) [
  | inl e ↦ rw e (refl, refl)
  | inr e ↦ rw e (refl, refl)
]
step-settings now (failed k) t = (refl, refl)
step-settings now (succeeded k) t = (refl, refl)

run-settings :
    (es : List (ℕ × Event)) (t : LoginThrottle) → (run es t).max_attempts ≡ t.max_attempts
unfolding run
run-settings [] t = refl
run-settings ((now, e) ∷ es) t = run-settings es (step now e t) ∙ (step-settings now e t).1

run-Holds :
    (key : String) (start now : ℕ) (es : List (ℕ × Event)) (r : Option AttemptRecord)
    (t : LoginThrottle)
    → AreOrdered start now es
    → Holds key start r t
    → Holds key now (tally key t.window es r) (run es t)
unfolding run tally
run-Holds key start now [] r t h v = later-Holds key start now r t h v
run-Holds key start now ((at, e) ∷ es) r t h v =
    subst
      (λ w. Holds key now (tally key w es (tally_step key t.window at e r)) (run es (step at e t)))
      (step-settings at e t).0
      (run-Holds key at now es (tally_step key t.window at e r) (step at e t) h.1
        (step-Holds key at e r t (later-Holds key start at r t h.0 v)))

is_blocked-current :
    (n now : ℕ) (r : Option AttemptRecord) → is_blocked n now (current now r) ≡ is_blocked n now r
unfolding is_blocked
is_blocked-current n now none = refl
is_blocked-current n now (some a) = ground arith

-- After any events in the order of their times, the answer for a key is that of the key's own
-- count: neither the sweeps, whenever they happened, nor the events of other keys change it.
pub blocked_refines :
    (key : String) (start now : ℕ) (es : List (ℕ × Event)) (t : LoginThrottle)
    → HasDistinctKeys t.records
    → AreOrdered start now es
    → (blocked key now (run es t)).1
      ≡ is_blocked t.max_attempts now (tally key t.window es (lookup key t.records))
unfolding blocked sweep_locked step
blocked_refines key start now es t d h =
    let v =
      run-Holds key start now es (lookup key t.records) t h
        (record { distinct = d; same = refl }) in
    let r = tally key t.window es (lookup key t.records) in
    let swept = sweep-Holds key now r (run es t) v in
    let kept = (step-settings now (checked key) (run es t)).1 ∙ run-settings es t in
    let at = lookup key (sweep_locked now (run es t)).records in
    ap (λ n. is_blocked n now at) kept
    ∙ sym (is_blocked-current t.max_attempts now at)
    ∙ ap (is_blocked t.max_attempts now) swept.same
    ∙ is_blocked-current t.max_attempts now r
