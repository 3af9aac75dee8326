-- ===== src/Throttle/Counting.antt =====
-- How many failed logins a key has before the brake blocks it.
use framework_kyrux.Prelude.{
  ℕ, ◌+◌, ◌≤◌, ◌≡◌, refl, ap, String, List, [], ◌∷◌, Option, none, some, arith, leb, dec_text,
}
use mathlib.Core.Logic.{ite, ◌≢◌}
use framework_kyrux.Prelude.Dict.{lookup, HasDistinctKeys}
use framework_kyrux.Throttle.{AttemptRecord, LoginThrottle, is_blocked, blocked, counted}
use framework_kyrux.Throttle.Events.{
  Event, checked, failed, succeeded, run, AreOrdered, tally_step, tally,
}
use framework_kyrux.Throttle.Refinement.{blocked_refines}

-- The failures of a key among the events.
unfoldable pub failures : String → List (ℕ × Event) → ℕ
failures key [] = 0
failures key ((at, failed k) ∷ es) = ite (dec_text k key) 1 0 + failures key es
failures key ((at, _) ∷ es) = failures key es

-- The key has no success among the events.
abbrev pub NeverSucceeds : String → List (ℕ × Event) → Type 0
NeverSucceeds key [] = Unit
NeverSucceeds key ((at, succeeded k) ∷ es) = (k ≢ key) × NeverSucceeds key es
NeverSucceeds key ((at, _) ∷ es) = NeverSucceeds key es

count_of : Option AttemptRecord → ℕ
count_of none = 0
count_of (some a) = a.count

-- A record still counts at a time.
abbrev Lasts : ℕ → Option AttemptRecord → Type 0
Lasts now none = Unit
Lasts now (some a) = now ≤ a.reset_at

counted-Lasts :
    (window at now : ℕ) (r : Option AttemptRecord)
    → at ≤ now
    → now ≤ at + window
    → Lasts now r
    → ((counted window at r).count ≡ count_of r + 1) × (now ≤ (counted window at r).reset_at)
unfolding counted count_of
counted-Lasts window at now none h k l = (refl, k)
counted-Lasts window at now (some a) h k l = ground arith

later-AreOrdered : (start now : ℕ) (es : List (ℕ × Event)) → AreOrdered start now es → start ≤ now
later-AreOrdered start now [] h = h
later-AreOrdered start now ((at, e) ∷ es) h = omega (arith, h.0, later-AreOrdered at now es h.1)

tally-failures :
    (key : String) (window start now : ℕ) (es : List (ℕ × Event)) (r : Option AttemptRecord)
    → AreOrdered start now es
    → now ≤ start + window
    → NeverSucceeds key es
    → Lasts now r
    → (count_of (tally key window es r) ≡ count_of r + failures key es)
      × Lasts now (tally key window es r)
unfolding tally tally_step failures count_of
tally-failures key window start now [] r h k n l = (omega arith, l)
tally-failures key window start now ((at, checked k) ∷ es) r h near n l =
    tally-failures key window at now es r h.1 (omega (arith, h.0)) n l
tally-failures key window start now ((at, succeeded k) ∷ es) r h near n l = elim (dec_text k key) [
  | yes e ↦ absurd (n.0 e)
  | no e ↦ ground (arith, tally-failures key window at now es r h.1 (omega (arith, h.0)) n.1 l)
]
tally-failures key window start now ((at, failed k) ∷ es) r h near n l =
    let one =
      counted-Lasts window at now r (later-AreOrdered at now es h.1) (omega (arith, h.0)) l in
    elim (dec_text k key) [
      | yes e ↦ ground (
        arith,
        tally-failures key window at now es (some (counted window at r)) h.1 (omega (arith, h.0)) n
            one.1,
      )
      | no e ↦ ground (arith, tally-failures key window at now es r h.1 (omega (arith, h.0)) n l)
    ]

is_blocked-Lasts :
    (n now : ℕ) (r : Option AttemptRecord)
    → 1 ≤ n
    → Lasts now r
    → is_blocked n now r ≡ leb n (count_of r)
unfolding is_blocked count_of
is_blocked-Lasts n now none h l = ground arith
is_blocked-Lasts n now (some a) h l = ground arith

-- From a brake that knows nothing of a key, and within one window: whatever the other keys do, if
-- the key has no success, it is blocked exactly when its failures reach the limit, the limit being
-- at least 1.
pub blocked_after_failures :
    (key : String) (start now : ℕ) (es : List (ℕ × Event)) (t : LoginThrottle)
    → HasDistinctKeys t.records
    → lookup key t.records ≡ none
    → 1 ≤ t.max_attempts
    → AreOrdered start now es
    → now ≤ start + t.window
    → NeverSucceeds key es
    → (blocked key now (run es t)).1 ≡ leb t.max_attempts (failures key es)
unfolding count_of
blocked_after_failures key start now es t d fresh positive h near n =
    let (counts, lasts) = tally-failures key t.window start now es none h near n tt in
    rw (blocked_refines key start now es t d h) (
      rw fresh (
        rw (is_blocked-Lasts t.max_attempts now _ positive lasts)
          (ap (leb t.max_attempts) (omega (arith, counts)))))
