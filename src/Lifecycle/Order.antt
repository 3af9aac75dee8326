-- ===== src/Lifecycle/Order.antt =====
-- The life of a core: its activations, its start and its end.
use framework_kyrux.Prelude.{◌≡◌, ap, ◌∙◌, subst, List, [], ◌++◌, Option}
use mathlib.Core.List.{append_assoc, reverse}
use framework_kyrux.Lifecycle.{
  Module, PhaseCall, World, LifecycleError, Core, start_all, shutdown_all,
}
use framework_kyrux.Lifecycle.Phases.{
  Activates, Starts, Stops, activate_all, activate_all-Activates, start_all-Starts,
  shutdown_all-Stops,
}

-- What the life of a core leaves: the calls, and the errors of its parts.
pub record Life {ℓ} (S : Type ℓ) : Type ℓ where
  pub world : World S
  pub activation_errors : List (Option LifecycleError)
  pub start_error : Option LifecycleError
  pub shutdown_errors : List LifecycleError

module _ {ℓ κ} {S : Type ℓ} {V : Type κ} where
  -- The life of a core: activations, Run and Shutdown.
  unfoldable pub live : List (Module S V) → Core S V × World S → Life S
  live ms cw =
      let activated = activate_all ms cw in
      let started = start_all activated.0.0.active activated.0.1 in
      let stopped = shutdown_all activated.0.0.active started.0 in
      record {
        world = stopped.0;
        activation_errors = activated.1;
        start_error = started.1;
        shutdown_errors = stopped.1;
      }

  -- The calls of the phases of a life, in their order.
  pub record IsOrdered (ms : List (Module S V)) (before : List PhaseCall) (life : Life S)
      : Type (ℓ ⊔ κ) where
    pub active : List (Module S V)
    pub activation : List PhaseCall
    pub started : List PhaseCall
    pub stopped : List PhaseCall
    pub activated : Activates ms activation active life.activation_errors
    pub runs : Starts active started life.start_error
    pub ends : Stops (reverse active) stopped life.shutdown_errors
    pub calls_made : life.world.called ≡ before ++ (activation ++ (started ++ stopped))

  -- The life of a core without active modules makes exactly these calls, with these answers, in this
  -- order. Each module gets Init, and Configure exactly if Init succeeded, before the next one gets
  -- any; an error of either is returned. Then the modules for which both succeeded get Start in the
  -- order of their activation, up to and with the first one that fails, whose error is returned.
  -- Then all modules for which both succeeded, started or not, get Shutdown in the reverse order,
  -- whether or not one of them fails, and the errors of those that fail are returned.
  pub live-IsOrdered :
      (ms : List (Module S V)) (c : Core S V) (w : World S)
      → c.active ≡ []
      → IsOrdered ms w.called (live ms (c, w))
  unfolding live
  live-IsOrdered ms c w fresh =
      let cw = (activate_all ms (c, w)).0 in
      let (activation, active, activated, grown, called) = activate_all-Activates ms (c, w) in
      let same : cw.0.active ≡ active = grown ∙ ap (λ l. l ++ active) fresh in
      let (started, runs, started_called) = start_all-Starts cw.0.active cw.1 in
      let (stopped, ends, stopped_called) =
        shutdown_all-Stops cw.0.active (start_all cw.0.active cw.1).0 in
      record {
        active = active;
        activation = activation;
        started = started;
        stopped = stopped;
        activated = activated;
        runs = subst (λ l. Starts l started (start_all cw.0.active cw.1).1) same runs;
        ends =
            subst
              (λ l.
                Stops (reverse l) stopped
                  (shutdown_all cw.0.active (start_all cw.0.active cw.1).0).1)
              same ends;
        calls_made =
            stopped_called
            ∙ ap (λ l. l ++ stopped) (started_called ∙ ap (λ l. l ++ started) called)
            ∙ append_assoc (w.called ++ activation) started stopped
            ∙ append_assoc w.called activation (started ++ stopped);
      }
