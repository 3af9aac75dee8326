-- ===== src/Jobs/Attempts.antt =====
-- How often a task is tried, and how many tasks wait.
use framework_kyrux.Prelude.{
  ℕ, ◌<◌, ◌≤◌, ◌≡◌, refl, sym, subst, ◌⊎◌, inl, inr, String, Bool, true, false, List, [], ◌∷◌, ◌++◌,
  some, arith, length, length-append, All, All-append, All-middle, ap, ◌∙◌, Result, ok, err,
}
use framework_kyrux.Jobs.{
  Task, Queue, Fate, QueueError, Verdict, ends, retries, admit, enqueue_task, take_task, close,
  set_max_retries, set_max_age, register,
}
use framework_kyrux.Jobs.Steps.{
  System, start, after_send, after_process, after_timer, Step, enqueues, sends, takes, processes,
  fires, closes, limits_retries, limits_age, registers, StepWithin, RetriesWithin, Reached, started,
  stepped,
}
use framework_kyrux.Jobs.Verdicts.{Keeps, Judged-Keeps, process-Judged}

module _ {ℓ} {A : Type ℓ} where
  -- The first attempt is always allowed, and a later one under the limit.
  abbrev pub IsAllowed : ℕ → Task A → Type 0
  IsAllowed limit t = (t.attempt ≡ 0) ⊎ (t.attempt < limit)

  abbrev AreAllowed : ℕ → List (Task A) → Type 0
  AreAllowed limit ts = All (IsAllowed limit) ts

  abbrev TimersAllowed : ℕ → List (ℕ × Task A) → Type 0
  TimersAllowed limit ts = All (λ due_task. IsAllowed limit (due_task.1)) ts

  -- `limit` is at least the limit of retries, now and before.
  pub record IsLimited (limit : ℕ) (q : Queue A) (s : System A) : Type 0 where
    pub under_limit : s.queue.max_retries ≤ limit
    pub same_buffer : s.queue.buffer ≡ q.buffer
    pub room : length s.queue.tasks ≤ q.buffer
    pub waiting : AreAllowed limit s.queue.tasks
    pub admitted : AreAllowed limit s.admitted
    pub running : AreAllowed limit s.running
    pub timed : TimersAllowed limit s.timers

  -- Only the queue of a system changes, and keeps its limits.
  requeued-IsLimited :
      (limit : ℕ) (q new : Queue A) (s : System A)
      → IsLimited limit q s
      → new.max_retries ≤ limit
      → new.buffer ≡ s.queue.buffer
      → length new.tasks ≤ q.buffer
      → AreAllowed limit new.tasks
      → IsLimited limit q (record s { queue = new })
  requeued-IsLimited limit q new s v under size few ok_tasks = record {
    under_limit = under;
    same_buffer = size ∙ v.same_buffer;
    room = few;
    waiting = ok_tasks;
    admitted = v.admitted;
    running = v.running;
    timed = v.timed;
  }

  ended-IsLimited :
      (limit : ℕ) (q : Queue A) (t : Task A) (f : Fate) (s : System A)
      → IsLimited limit q s
      → IsLimited limit q (record s { ended = (t, f) ∷ s.ended })
  ended-IsLimited limit q t f s v = record {
    under_limit = v.under_limit;
    same_buffer = v.same_buffer;
    room = v.room;
    waiting = v.waiting;
    admitted = v.admitted;
    running = v.running;
    timed = v.timed;
  }

  sent :
      (t : Task A) (new old : Queue A)
      → enqueue_task t old ≡ ok new
      → (new.tasks ≡ old.tasks ++ t ∷ [])
        × (new.max_retries ≡ old.max_retries)
        × (new.buffer ≡ old.buffer)
        × (length old.tasks < old.buffer)
  unfolding enqueue_task
  sent t new old e = ground arith

  after_send-IsLimited :
      (limit : ℕ) (q : Queue A) (t : Task A) (s : System A) (r : Result QueueError (Queue A))
      → IsLimited limit q s
      → IsAllowed limit t
      → enqueue_task t s.queue ≡ r
      → IsLimited limit q (after_send t r s)
  unfolding after_send
  after_send-IsLimited limit q t s (err x) v h e = ended-IsLimited limit q t _ s v
  after_send-IsLimited limit q t s (ok new) v h e =
      let (tasks, kept, size, few) = sent t new s.queue e in
      requeued-IsLimited limit q new s v (omega (arith, kept, v.under_limit)) size
        (omega (arith, ap length tasks, length-append s.queue.tasks (t ∷ []), v.same_buffer))
        (subst (AreAllowed limit) (sym tasks)
          (All-append (IsAllowed limit) s.queue.tasks (t ∷ []) v.waiting (h, tt)))

  after_process-IsLimited :
      (limit : ℕ) (q : Queue A) (now : ℕ) (t : Task A) (w : Verdict A) (s : System A)
      → IsLimited limit q s
      → Keeps s.queue now t w
      → IsLimited limit q (after_process t w s)
  unfolding after_process
  after_process-IsLimited limit q now t (ends f) s v k = ended-IsLimited limit q t f s v
  after_process-IsLimited limit q now t (retries due t') s v k = record {
    under_limit = v.under_limit;
    same_buffer = v.same_buffer;
    room = v.room;
    waiting = v.waiting;
    admitted = v.admitted;
    running = v.running;
    timed = (inr (omega (arith, k.next_attempt, k.allowed, v.under_limit)), v.timed);
  }

  after_timer-IsLimited :
      (limit : ℕ) (q : Queue A) (t : Task A) (is_open : Bool) (s : System A)
      → IsLimited limit q s
      → IsAllowed limit t
      → IsLimited limit q (after_timer t is_open s)
  unfolding after_timer
  after_timer-IsLimited limit q t false s v h = ended-IsLimited limit q t _ s v
  after_timer-IsLimited limit q t true s v h = record {
    under_limit = v.under_limit;
    same_buffer = v.same_buffer;
    room = v.room;
    waiting = v.waiting;
    admitted = (h, v.admitted);
    running = v.running;
    timed = v.timed;
  }

  admitted_first :
      (name : String) (payload : A) (now : ℕ) (t : Task A) (q : Queue A)
      → admit name payload now q ≡ ok t
      → t.attempt ≡ 0
  unfolding admit
  admitted_first name payload now t q e = ground arith

  -- The parts of a system with other tasks in the hands of its callers, workers and timers.
  moved-IsLimited :
      (limit : ℕ) (q : Queue A) (s : System A) (admitted running : List (Task A))
      (timers : List (ℕ × Task A)) (accepted : List (Task A))
      → IsLimited limit q s
      → AreAllowed limit admitted
      → AreAllowed limit running
      → TimersAllowed limit timers
      → IsLimited limit q (record s {
        admitted = admitted;
        running = running;
        timers = timers;
        accepted = accepted;
      })
  moved-IsLimited limit q s admitted running timers accepted v a r t = record {
    under_limit = v.under_limit;
    same_buffer = v.same_buffer;
    room = v.room;
    waiting = v.waiting;
    admitted = a;
    running = r;
    timed = t;
  }

  taken :
      (t : Task A) (new old : Queue A)
      → take_task old ≡ some (t, new)
      → (old.tasks ≡ t ∷ new.tasks)
        × (new.max_retries ≡ old.max_retries)
        × (new.buffer ≡ old.buffer)
  unfolding take_task
  taken t new old e = ground arith

  Step-IsLimited :
      (limit : ℕ) (q : Queue A) (s s' : System A) (h : Step s s')
      → StepWithin limit h
      → IsLimited limit q s
      → IsLimited limit q s'
  unfolding close set_max_retries set_max_age register
  Step-IsLimited limit q s s' (enqueues name payload now t e) within v =
      moved-IsLimited limit q s (t ∷ s.admitted) s.running s.timers (t ∷ s.accepted) v
        (inl (admitted_first name payload now t s.queue e), v.admitted) v.running v.timed
  Step-IsLimited limit q s s' (sends t xs ys e) within v =
      let (here, rest) =
        All-middle (IsAllowed limit) xs ys t (subst (AreAllowed limit) e v.admitted) in
      after_send-IsLimited limit q t _ _
        (moved-IsLimited limit q s (xs ++ ys) s.running s.timers s.accepted v rest v.running
          v.timed)
        here refl
  Step-IsLimited limit q s s' (takes t new e) within v =
      let (same, kept, size) = taken t new s.queue e in
      let (here, rest) : IsAllowed limit t × AreAllowed limit new.tasks =
        subst (AreAllowed limit) same v.waiting in
      requeued-IsLimited limit q new _
        (moved-IsLimited limit q s s.admitted (t ∷ s.running) s.timers s.accepted v v.admitted
          (here, v.running) v.timed)
        (omega (arith, kept, v.under_limit)) size (omega (arith, ap length same, v.room)) rest
  Step-IsLimited limit q s s' (processes outcome now t xs ys e) within v =
      let (here, rest) =
        All-middle (IsAllowed limit) xs ys t (subst (AreAllowed limit) e v.running) in
      after_process-IsLimited limit q now t _ _
        (moved-IsLimited limit q s s.admitted (xs ++ ys) s.timers s.accepted v v.admitted rest
          v.timed)
        (Judged-Keeps (process-Judged outcome now t s.queue))
  Step-IsLimited limit q s s' (fires due now t xs ys e h) within v =
      let (here, rest) =
        All-middle (λ due_task. IsAllowed limit (due_task.1)) xs ys (due, t)
          (subst (TimersAllowed limit) e v.timed) in
      after_timer-IsLimited limit q t _ _
        (moved-IsLimited limit q s s.admitted s.running (xs ++ ys) s.accepted v v.admitted v.running
          rest)
        here
  Step-IsLimited limit q s s' closes within v =
      requeued-IsLimited limit q _ s v v.under_limit refl v.room v.waiting
  Step-IsLimited limit q s s' (limits_retries n) within v =
      requeued-IsLimited limit q _ s v within refl v.room v.waiting
  Step-IsLimited limit q s s' (limits_age d) within v =
      requeued-IsLimited limit q _ s v v.under_limit refl v.room v.waiting
  Step-IsLimited limit q s s' (registers name some_handler) within v =
      requeued-IsLimited limit q _ s v v.under_limit refl v.room v.waiting

  reached-IsLimited :
      (limit : ℕ) (q : Queue A) (s : System A) (r : Reached q s)
      → q.tasks ≡ []
      → RetriesWithin limit q r
      → IsLimited limit q s
  unfolding start
  reached-IsLimited limit q s started e within = record {
    under_limit = within;
    same_buffer = refl;
    room = rw e (omega arith);
    waiting = rw e tt;
    admitted = tt;
    running = tt;
    timed = tt;
  }
  reached-IsLimited limit q s' (stepped r h) e within =
      Step-IsLimited limit q _ s' h within.1 (reached-IsLimited limit q _ r e within.0)

  -- In every state that a new queue reaches, its limits and its handlers changed between or not, no
  -- more tasks wait than its buffer takes; and each task that a worker runs is in its first attempt
  -- or has made fewer attempts than `limit`, if every limit of retries that the queue had on the way
  -- was at most `limit`.
  pub attempts_bounded :
      (limit : ℕ) (q : Queue A) (s : System A) (r : Reached q s)
      → q.tasks ≡ []
      → RetriesWithin limit q r
      → (length s.queue.tasks ≤ q.buffer) × All (IsAllowed limit) s.running
  attempts_bounded limit q s r e within =
      let v = reached-IsLimited limit q s r e within in (v.room, v.running)
