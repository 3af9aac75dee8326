-- ===== src/Jobs.antt =====
-- The queue of background tasks in memory (core/queue/queue.go). Times are in nanoseconds, and a
-- time of 0 is the zero time. What a handler does is an argument of `process`; of the handlers the
-- queue keeps the names, with `false` for a handler that is nil.
pub mod Steps
pub mod Verdicts
pub mod Conservation
pub mod Attempts
pub mod Closing
pub mod Tests
use framework_kyrux.Prelude.{
  ℕ, ◌+◌, ◌-◌, ◌*◌, ◌^◌, String, Bool, true, false, List, [], ◌∷◌, ◌++◌, Option, none, some, ltb,
  leb, ◌==◌, ◌&&◌, not, length, if◌then◌else◌, Result, ok, err,
}
use framework_kyrux.Prelude.Dict.{Dict, lookup, insert}

-- task
pub record Task {ℓ} (A : Type ℓ) : Type ℓ where
  pub name : String
  pub payload : A
  pub attempt : ℕ
  pub enqueued_at : ℕ

-- Queue, without the fields of the mode with Redis; `buffer` is the capacity of the channel.
pub record Queue {ℓ} (A : Type ℓ) : Type ℓ where
  pub handlers : Dict Bool
  pub tasks : List (Task A)
  pub buffer : ℕ
  pub closed : Bool
  pub max_retries : ℕ
  pub max_age : ℕ

-- ErrQueueFull, ErrQueueClosed, ErrNoHandler, and the panic of a send on a closed channel
pub data QueueError : Type 0 where
  queue_full queue_closed no_handler send_panic : QueueError

-- What a handler does with a payload.
pub data Outcome : Type 0 where
  succeeds fails panics : Outcome

-- How a task ends: its handler succeeded or panicked; it was too old, had no handler or no attempt
-- left when it was processed; or it did not get back into the queue, or never got in.
pub data Fate : Type 0 where
  done panicked expired unhandled exhausted lost : Fate
  refused : QueueError → Fate

-- What `process` does with a task: it ends, or it is put on a timer.
pub data Verdict {ℓ} (A : Type ℓ) : Type ℓ where
  ends : Fate → Verdict A
  retries : ℕ → Task A → Verdict A

abbrev pub second : ℕ
second = 10 ^ 9

module _ {ℓ} {A : Type ℓ} where
  -- New: a buffer that is not positive, here 0, takes the default.
  unfoldable pub new : ℕ → Queue A
  new buffer = record {
    handlers = [];
    tasks = [];
    buffer = if ltb 0 buffer then buffer else 1024;
    closed = false;
    max_retries = 3;
    max_age = 24 * 3600 * second;
  }

  unfoldable pub set_max_retries : ℕ → Queue A → Queue A
  set_max_retries n q = record q { max_retries = n }

  unfoldable pub set_max_age : ℕ → Queue A → Queue A
  set_max_age d q = record q { max_age = d }

  unfoldable pub register : String → Bool → Queue A → Queue A
  register name some_handler q = record q { handlers = insert name some_handler q.handlers }

  -- The part of Enqueue under the lock.
  unfoldable pub admit : String → A → ℕ → Queue A → Result QueueError (Task A)
  admit name payload now q = if q.closed then err queue_closed else (elim (lookup name q.handlers) [
    | none ↦ err no_handler
    | some _ ↦ ok (record { name = name; payload = payload; attempt = 0; enqueued_at = now })
  ])

  -- enqueueTask, which runs without the lock: by then the channel may be closed.
  unfoldable pub enqueue_task : Task A → Queue A → Result QueueError (Queue A)
  enqueue_task t q =
      if q.closed
      then err send_panic
      else if ltb (length q.tasks) q.buffer
      then ok (record q { tasks = q.tasks ++ t ∷ [] })
      else err queue_full

  -- Enqueue, where nothing comes between its two parts.
  unfoldable pub enqueue : String → A → ℕ → Queue A → Result QueueError (Queue A)
  enqueue name payload now q = elim (admit name payload now q) [
    | err e ↦ err e
    | ok t ↦ enqueue_task t q
  ]

  unfoldable pub len : Queue A → ℕ
  len q = length q.tasks

  -- Close: a worker still takes what the channel holds.
  unfoldable pub close : Queue A → Queue A
  close q = record q { closed = true }

  -- A worker's next task.
  unfoldable pub take_task : Queue A → Option (Task A × Queue A)
  take_task q = elim q.tasks [ [] ↦ none | t ∷ ts ↦ some (t, record q { tasks = ts }) ]

  abbrev pub is_expired : ℕ → Task A → Queue A → Bool
  is_expired now t q =
      ltb 0 q.max_age && (not (t.enqueued_at == 0) && ltb q.max_age (now - t.enqueued_at))

  abbrev pub has_handler : Task A → Queue A → Bool
  has_handler t q = elim (lookup t.name q.handlers) [ none ↦ false | some h ↦ h ]

  -- The part of process behind the call of the handler.
  unfoldable pub judge : Outcome → ℕ → Task A → Queue A → Verdict A
  judge succeeds now t q = ends done
  judge panics now t q = ends panicked
  judge fails now t q =
      if leb q.max_retries (t.attempt + 1)
      then ends exhausted
      else retries (now + (t.attempt + 1) * second) (record t { attempt = t.attempt + 1 })

  unfoldable pub process : Outcome → ℕ → Task A → Queue A → Verdict A
  unfolding judge
  process outcome now t q =
      if is_expired now t q
      then ends expired
      else if not (has_handler t q)
      then ends unhandled
      else judge outcome now t q

  -- The part of requeue under the lock: whether the task goes on to enqueueTask.
  unfoldable pub requeue_open : Queue A → Bool
  requeue_open q = not q.closed
