-- ===== src/Jobs/Conservation.antt =====
-- No task is lost without a record, and none is doubled: each is in one place.
use framework_kyrux.Prelude.{
  ℕ, ◌+◌, ◌≡◌, refl, ap, ◌∙◌, String, Bool, true, false, List, [], ◌∷◌, ◌++◌, some, arith,
  if◌then◌else◌, Result, ok, err,
}
use framework_kyrux.Jobs.{
  Task, Queue, QueueError, Fate, Verdict, ends, retries, enqueue_task, take_task, process,
  requeue_open, close, set_max_retries, set_max_age, register,
}
use framework_kyrux.Jobs.Steps.{
  System, start, after_send, after_process, after_timer, Step, enqueues, sends, takes, processes,
  fires, closes, limits_retries, limits_age, registers, Reached, started, stepped,
}
use framework_kyrux.Jobs.Verdicts.{Keeps, Judged-Keeps, process-Judged}

module _ {ℓ} {A : Type ℓ} (p : String → A → Bool) where
  -- 1 for a task of the kind, which its name and its payload tell, and 0 for another.
  pub one : Task A → ℕ
  one t = if p t.name t.payload then 1 else 0

  pub count : List (Task A) → ℕ
  count [] = 0
  count (t ∷ ts) = one t + count ts

  pub count_timers : List (ℕ × Task A) → ℕ
  count_timers [] = 0
  count_timers ((due, t) ∷ ts) = one t + count_timers ts

  pub count_ended : List (Task A × Fate) → ℕ
  count_ended [] = 0
  count_ended ((t, f) ∷ ts) = one t + count_ended ts

  -- The tasks of the kind in all places.
  pub placed : System A → ℕ
  placed s =
      count s.admitted
      + count s.queue.tasks
      + count s.running
      + count_timers s.timers
      + count_ended s.ended

  count-append : (xs ys : List (Task A)) → count (xs ++ ys) ≡ count xs + count ys
  unfolding count
  count-append [] ys = omega arith
  count-append (x ∷ xs) ys = omega (arith, count-append xs ys)

  count_timers-append :
      (xs ys : List (ℕ × Task A)) → count_timers (xs ++ ys) ≡ count_timers xs + count_timers ys
  unfolding count_timers
  count_timers-append [] ys = omega arith
  count_timers-append ((due, x) ∷ xs) ys = omega (arith, count_timers-append xs ys)

  -- Taking a task out of the middle.
  count-without :
      (t : Task A) (xs ys : List (Task A)) → count (xs ++ t ∷ ys) ≡ count (xs ++ ys) + one t
  unfolding count
  count-without t xs ys = omega (arith, count-append xs (t ∷ ys), count-append xs ys)

  count_timers-without :
      (due : ℕ) (t : Task A) (xs ys : List (ℕ × Task A))
      → count_timers (xs ++ (due, t) ∷ ys) ≡ count_timers (xs ++ ys) + one t
  unfolding count_timers
  count_timers-without due t xs ys =
      omega (arith, count_timers-append xs ((due, t) ∷ ys), count_timers-append xs ys)

  enqueue_task-count :
      (t : Task A) (q q' : Queue A)
      → enqueue_task t q ≡ ok q'
      → count q'.tasks ≡ count q.tasks + one t
  unfolding enqueue_task count
  enqueue_task-count t q q' e =
      let same : q'.tasks ≡ q.tasks ++ t ∷ [] = ground arith in
      ap count same ∙ omega (arith, count-append q.tasks (t ∷ []))

  after_send-placed :
      (t : Task A) (s : System A)
      → placed (after_send t (enqueue_task t s.queue) s) + count s.accepted
        ≡ placed s + one t + count (after_send t (enqueue_task t s.queue) s).accepted
  unfolding placed after_send count_ended
  after_send-placed t s = split (enqueue_task t s.queue) refl
    where
      split :
          (r : Result QueueError (Queue A))
          → enqueue_task t s.queue ≡ r
          → placed (after_send t r s) + count s.accepted
            ≡ placed s + one t + count (after_send t r s).accepted
      split (ok q) e = omega (arith, enqueue_task-count t s.queue q e)
      split (err x) e = omega arith

  after_process-placed :
      (now : ℕ) (t : Task A) (q : Queue A) (v : Verdict A) (s : System A)
      → Keeps q now t v
      → placed (after_process t v s) + count s.accepted
        ≡ placed s + one t + count (after_process t v s).accepted
  unfolding placed after_process count_ended count_timers one
  after_process-placed now t q (ends f) s k = omega arith
  after_process-placed now t q (retries due t') s k =
      let same : one t' ≡ one t = rw (k.same_name, k.same_payload) refl in omega (arith, same)

  after_timer-placed :
      (t : Task A) (is_open : Bool) (s : System A)
      → placed (after_timer t is_open s) + count s.accepted
        ≡ placed s + one t + count (after_timer t is_open s).accepted
  unfolding placed after_timer count_ended count
  after_timer-placed t true s = omega arith
  after_timer-placed t false s = omega arith

  -- A task that is taken out of its place.
  unadmitted :
      (t : Task A) (xs ys : List (Task A)) (s : System A)
      → s.admitted ≡ xs ++ t ∷ ys
      → placed s ≡ placed (record s { admitted = xs ++ ys }) + one t
  unfolding placed
  unadmitted t xs ys s e = omega (arith, ap count e, count-without t xs ys)

  unstarted :
      (t : Task A) (xs ys : List (Task A)) (s : System A)
      → s.running ≡ xs ++ t ∷ ys
      → placed s ≡ placed (record s { running = xs ++ ys }) + one t
  unfolding placed
  unstarted t xs ys s e = omega (arith, ap count e, count-without t xs ys)

  untimed :
      (due : ℕ) (t : Task A) (xs ys : List (ℕ × Task A)) (s : System A)
      → s.timers ≡ xs ++ (due, t) ∷ ys
      → placed s ≡ placed (record s { timers = xs ++ ys }) + one t
  unfolding placed
  untimed due t xs ys s e = omega (arith, ap count_timers e, count_timers-without due t xs ys)

  taken :
      (t : Task A) (q : Queue A) (s : System A)
      → take_task s.queue ≡ some (t, q)
      → placed s ≡ placed (record s { queue = q; running = t ∷ s.running })
  unfolding placed take_task count
  taken t q s e =
      let same : s.queue.tasks ≡ t ∷ q.tasks = ground arith in omega (arith, ap count same)

  -- Nothing but the callers of Enqueue brings in a task.
  Step-placed :
      (s s' : System A) → Step s s' → placed s + count s'.accepted ≡ placed s' + count s.accepted
  unfolding close placed count set_max_retries set_max_age register
  Step-placed s s' (enqueues name payload now t e) = omega arith
  Step-placed s s' (sends t xs ys e) =
      omega (arith, unadmitted t xs ys s e, after_send-placed t (record s { admitted = xs ++ ys }))
  Step-placed s s' (takes t q e) = omega (arith, taken t q s e)
  Step-placed s s' (processes outcome now t xs ys e) = omega (
    arith,
    unstarted t xs ys s e,
    after_process-placed now t s.queue (process outcome now t s.queue)
        (record s { running = xs ++ ys }) (Judged-Keeps (process-Judged outcome now t s.queue)),
  )
  Step-placed s s' (fires due now t xs ys e h) = omega (
    arith,
    untimed due t xs ys s e,
    after_timer-placed t (requeue_open s.queue) (record s { timers = xs ++ ys }),
  )
  Step-placed s s' closes = omega arith
  Step-placed s s' (limits_retries n) = omega arith
  Step-placed s s' (limits_age d) = omega arith
  Step-placed s s' (registers name some_handler) = omega arith

  -- In every state that a new queue reaches, with any interleaving of callers, workers and timers:
  -- of the tasks of any kind, as many were accepted as are waiting, running or on a timer, or are
  -- recorded as ended.
  pub tasks_conserved :
      (q : Queue A) (s : System A) → q.tasks ≡ [] → Reached q s → count s.accepted ≡ placed s
  unfolding placed count count_timers count_ended start
  tasks_conserved q s e started = rw e (omega arith)
  tasks_conserved q s' e (stepped r h) = omega (arith, tasks_conserved q _ e r, Step-placed _ _ h)
