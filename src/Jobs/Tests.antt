-- ===== src/Jobs/Tests.antt =====
-- Runs of the queue, and its theorems at a queue with two tasks of one name.
use framework_kyrux.Prelude.{
  ℕ, ◌≤◌, ◌≡◌, refl, String, Bool, true, [], ◌∷◌, All, length, ok, err, dec_text, ◌==◌, ◌+◌, arith,
}
use framework_kyrux.Prelude.Dict.{lookup, insert}
use framework_kyrux.Jobs.{
  Task, Queue, no_handler, queue_closed, send_panic, fails, refused, retries, second, new, register,
  set_max_retries, admit, enqueue_task, enqueue, close, take_task, process,
}
use framework_kyrux.Jobs.Steps.{
  System, start, after_send, enqueues, sends, takes, limits_retries, RetriesWithin, Reached,
  started, stepped,
}
use framework_kyrux.Jobs.Verdicts.{Judged, process-Judged}
use framework_kyrux.Jobs.Conservation.{count, placed, tasks_conserved}
use framework_kyrux.Jobs.Attempts.{IsAllowed, attempts_bounded}
use framework_kyrux.Jobs.Closing.{close_can_panic}

abbrev mails : Queue ℕ
mails = register "mail" true (new 1)

abbrev mail : Task ℕ
mail = record { name = "mail"; payload = 7; attempt = 0; enqueued_at = 100 }

abbrev sent : System ℕ
sent = record {
  queue = mails;
  admitted = mail ∷ [];
  running = [];
  timers = [];
  accepted = mail ∷ [];
  ended = [];
}

abbrev running : System ℕ
running = record {
  queue = mails;
  admitted = [];
  running = mail ∷ [];
  timers = [];
  accepted = mail ∷ [];
  ended = [];
}

mail_admitted : admit "mail" 7 100 mails ≡ ok mail
unfolding admit register new insert lookup dec_text
mail_admitted = refl

sent_reached : Reached mails sent
unfolding start
sent_reached = stepped started (enqueues "mail" 7 100 mail mail_admitted)

running_reached : Reached mails running
unfolding enqueue_task after_send take_task register new
running_reached = stepped (stepped sent_reached (sends mail [] [] refl)) (takes mail mails refl)

abbrev is_seven : String → ℕ → Bool
is_seven name n = n == 7

tasks_conserved_example : count is_seven running.accepted ≡ placed is_seven running
unfolding register new
tasks_conserved_example = tasks_conserved is_seven mails running refl running_reached

-- The limit is lowered while the task runs.
abbrev lowered : System ℕ
lowered = record running { queue = set_max_retries 1 mails }

lowered_reached : Reached mails lowered
lowered_reached = stepped running_reached (limits_retries 1)

lowered_within : RetriesWithin 3 mails lowered_reached
unfolding lowered_reached running_reached sent_reached register new
lowered_within = ((((omega arith, tt), tt), tt), omega arith)

attempts_bounded_example :
    (length lowered.queue.tasks ≤ mails.buffer) × All (IsAllowed 3) lowered.running
unfolding register new
attempts_bounded_example = attempts_bounded 3 mails lowered lowered_reached refl lowered_within

process-Judged_example : Judged mails 200 mail fails (process fails 200 mail mails)
process-Judged_example = process-Judged fails 200 mail mails

close_can_panic_example :
    (s : System ℕ) × Reached mails s × (s.ended ≡ (mail, refused send_panic) ∷ [])
close_can_panic_example = close_can_panic mails sent mail [] [] sent_reached refl

mail_retried : process fails 200 mail mails ≡ retries (200 + second) (record mail { attempt = 1 })
unfolding process register new insert lookup dec_text
mail_retried = refl

unknown_refused : enqueue "fax" 7 100 mails ≡ err no_handler
unfolding enqueue admit register new insert lookup dec_text
unknown_refused = refl

closed_refused : enqueue "mail" 7 100 (close mails) ≡ err queue_closed
unfolding enqueue admit close
closed_refused = refl
