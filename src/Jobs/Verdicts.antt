-- ===== src/Jobs/Verdicts.antt =====
-- What a worker does with a task (process in core/queue/queue.go).
use framework_kyrux.Prelude.{
  ℕ, ◌+◌, ◌*◌, ◌<◌, ◌≤◌, ◌≡◌, refl, inl, inr, true, false, arith, leb, Bool-cases,
}
use framework_kyrux.Jobs.{
  Task, Queue, Outcome, succeeds, fails, panics, done, panicked, expired, unhandled, exhausted,
  Verdict, ends, retries, second, is_expired, has_handler, judge, process,
}

module _ {ℓ} {A : Type ℓ} where
  -- What a retry keeps of a task, and changes.
  pub record IsRetry (q : Queue A) (now : ℕ) (t : Task A) (due : ℕ) (t' : Task A) : Type ℓ where
    pub same_name : t'.name ≡ t.name
    pub same_payload : t'.payload ≡ t.payload
    pub same_time : t'.enqueued_at ≡ t.enqueued_at
    pub next_attempt : t'.attempt ≡ t.attempt + 1
    pub allowed : t.attempt + 1 < q.max_retries
    pub backoff : due ≡ now + (t.attempt + 1) * second

  -- The verdicts, with what each asks for.
  pub data Judged (q : Queue A) (now : ℕ) (t : Task A) : Outcome → Verdict A → Type ℓ where
    too_old : (o : Outcome) → is_expired now t q ≡ true → Judged q now t o (ends expired)
    without_handler :
        (o : Outcome)
        → is_expired now t q ≡ false
        → has_handler t q ≡ false
        → Judged q now t o (ends unhandled)
    succeeded :
        is_expired now t q ≡ false → has_handler t q ≡ true → Judged q now t succeeds (ends done)
    recovered :
        is_expired now t q ≡ false → has_handler t q ≡ true → Judged q now t panics (ends panicked)
    gave_up :
        is_expired now t q ≡ false
        → has_handler t q ≡ true
        → q.max_retries ≤ t.attempt + 1
        → Judged q now t fails (ends exhausted)
    tries_again :
        (due : ℕ) (t' : Task A)
        → is_expired now t q ≡ false
        → has_handler t q ≡ true
        → IsRetry q now t due t'
        → Judged q now t fails (retries due t')

  -- The retry in a verdict, if it is one.
  abbrev pub Keeps : Queue A → ℕ → Task A → Verdict A → Type ℓ
  Keeps q now t (ends f) = Unit
  Keeps q now t (retries due t') = IsRetry q now t due t'

  pub Judged-Keeps :
      {q : Queue A} {now : ℕ} {t : Task A} {o : Outcome} {v : Verdict A}
      → Judged q now t o v
      → Keeps q now t v
  Judged-Keeps (too_old o e) = tt
  Judged-Keeps (without_handler o e h) = tt
  Judged-Keeps (succeeded e h) = tt
  Judged-Keeps (recovered e h) = tt
  Judged-Keeps (gave_up e h l) = tt
  Judged-Keeps (tries_again due t' e h r) = r

  judge-Judged :
      (o : Outcome) (now : ℕ) (t : Task A) (q : Queue A)
      → is_expired now t q ≡ false
      → has_handler t q ≡ true
      → Judged q now t o (judge o now t q)
  unfolding judge
  judge-Judged succeeds now t q old h = succeeded old h
  judge-Judged panics now t q old h = recovered old h
  judge-Judged fails now t q old h = elim (Bool-cases (leb q.max_retries (t.attempt + 1))) [
    | inl e ↦ rw e (gave_up old h (ground arith))
    | inr e ↦ rw e (
        tries_again _ _ old h (record {
          same_name = refl;
          same_payload = refl;
          same_time = refl;
          next_attempt = refl;
          allowed = ground arith;
          backoff = refl;
        }))
  ]

  -- Whatever the handler does, a task ends as too old or without a handler where it is so, in this
  -- order; else as its handler does, and a failure is tried again exactly while an attempt is left:
  -- as the same task with one attempt more, after as many seconds as it has attempts.
  pub process-Judged :
      (o : Outcome) (now : ℕ) (t : Task A) (q : Queue A) → Judged q now t o (process o now t q)
  unfolding process
  process-Judged o now t q = elim (Bool-cases (is_expired now t q)) [
    | inl e ↦ rw e (too_old o e)
    | inr e ↦ rw e (elim (Bool-cases (has_handler t q)) [
      | inl h ↦ rw h (judge-Judged o now t q e h)
      | inr h ↦ rw h (without_handler o e h)
    ])
  ]
