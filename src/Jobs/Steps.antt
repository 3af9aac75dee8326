-- ===== src/Jobs/Steps.antt =====
-- The queue with its workers, its timers and the callers of Enqueue, in any interleaving, with its settings
-- changed between: a call of
-- Enqueue or requeue is between its two parts while its task is in `admitted`.
use framework_kyrux.Prelude.{
  ℕ, ◌≤◌, ◌≡◌, String, Bool, true, false, List, [], ◌∷◌, ◌++◌, some, Result, ok, err,
}
use framework_kyrux.Jobs.{
  Task, Queue, QueueError, Outcome, Fate, lost, refused, Verdict, ends, retries, admit,
  enqueue_task, close, set_max_retries, set_max_age, register, take_task, process, requeue_open,
}

-- `accepted` and `ended` record what happened; the rest is where tasks are.
pub record System {ℓ} (A : Type ℓ) : Type ℓ where
  pub queue : Queue A
  pub admitted : List (Task A)
  pub running : List (Task A)
  pub timers : List (ℕ × Task A)
  pub accepted : List (Task A)
  pub ended : List (Task A × Fate)

module _ {ℓ} {A : Type ℓ} where
  unfoldable pub start : Queue A → System A
  start q = record {
    queue = q;
    admitted = [];
    running = [];
    timers = [];
    accepted = [];
    ended = [];
  }

  -- What follows the attempt to send an admitted task.
  unfoldable pub after_send : Task A → Result QueueError (Queue A) → System A → System A
  after_send t (ok q) s = record s { queue = q }
  after_send t (err e) s = record s { ended = (t, refused e) ∷ s.ended }

  unfoldable pub after_process : Task A → Verdict A → System A → System A
  after_process t (ends f) s = record s { ended = (t, f) ∷ s.ended }
  after_process t (retries due t') s = record s { timers = (due, t') ∷ s.timers }

  unfoldable pub after_timer : Task A → Bool → System A → System A
  after_timer t true s = record s { admitted = t ∷ s.admitted }
  after_timer t false s = record s { ended = (t, lost) ∷ s.ended }

  pub data Step (s : System A) : System A → Type ℓ where
    enqueues :
        (name : String) (payload : A) (now : ℕ) (t : Task A)
        → admit name payload now s.queue ≡ ok t
        → Step s (record s { admitted = t ∷ s.admitted; accepted = t ∷ s.accepted })
    sends :
        (t : Task A) (xs ys : List (Task A))
        → s.admitted ≡ xs ++ t ∷ ys
        → Step s (after_send t (enqueue_task t s.queue) (record s { admitted = xs ++ ys }))
    takes :
        (t : Task A) (q : Queue A)
        → take_task s.queue ≡ some (t, q)
        → Step s (record s { queue = q; running = t ∷ s.running })
    processes :
        (outcome : Outcome) (now : ℕ) (t : Task A) (xs ys : List (Task A))
        → s.running ≡ xs ++ t ∷ ys
        → Step s (after_process t (process outcome now t s.queue) (record s { running = xs ++ ys }))
    fires :
        (due now : ℕ) (t : Task A) (xs ys : List (ℕ × Task A))
        → s.timers ≡ xs ++ (due, t) ∷ ys
        → due ≤ now
        → Step s (after_timer t (requeue_open s.queue) (record s { timers = xs ++ ys }))
    closes : Step s (record s { queue = close s.queue })
    limits_retries : (n : ℕ) → Step s (record s { queue = set_max_retries n s.queue })
    limits_age : (d : ℕ) → Step s (record s { queue = set_max_age d s.queue })
    registers :
        (name : String) (some_handler : Bool)
        → Step s (record s { queue = register name some_handler s.queue })

  pub data Reached (q : Queue A) : System A → Type ℓ where
    started : Reached q (start q)
    stepped : {s s' : System A} → Reached q s → Step s s' → Reached q s'

  -- The limits of retries that are set in a step, and on the way to a state, are at most `limit`.
  abbrev pub StepWithin : (limit : ℕ) {s s' : System A} → Step s s' → Type 0
  StepWithin limit (limits_retries n) = n ≤ limit
  StepWithin limit _ = Unit

  abbrev pub RetriesWithin : (limit : ℕ) (q : Queue A) {s : System A} → Reached q s → Type 0
  RetriesWithin limit q started = q.max_retries ≤ limit
  RetriesWithin limit q (stepped r h) = RetriesWithin limit q r × StepWithin limit h
