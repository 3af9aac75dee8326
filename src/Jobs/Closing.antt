-- ===== src/Jobs/Closing.antt =====
-- Closing the queue (Close, Enqueue and requeue in core/queue/queue.go). The test of `closed` and the
-- send on the channel are not one step of the lock.
use framework_kyrux.Prelude.{◌≡◌, refl, List, ◌∷◌, ◌++◌}
use framework_kyrux.Jobs.{Task, Queue, send_panic, refused, enqueue_task, close}
use framework_kyrux.Jobs.Steps.{System, after_send, sends, closes, Reached, stepped}

module _ {ℓ} {A : Type ℓ} where
  -- From every state in which a caller of Enqueue or a timer has passed the test of `closed` and
  -- has not yet sent its task, the queue can be closed first: the send then panics.
  pub close_can_panic :
      (q : Queue A) (s : System A) (t : Task A) (xs ys : List (Task A))
      → Reached q s
      → s.admitted ≡ xs ++ t ∷ ys
      → (s' : System A) × Reached q s' × (s'.ended ≡ (t, refused send_panic) ∷ s.ended)
  unfolding close enqueue_task after_send
  close_can_panic q s t xs ys r e = (_, stepped (stepped r closes) (sends t xs ys e), refl)
