-- ===== src/Lifecycle/Phases.antt =====
-- The calls that activating, starting and shutting down make, with what each of them answered.
use framework_kyrux.Prelude.{
  ◌≡◌, refl, sym, ap, ◌∙◌, inl, inr, Bool, true, false, List, [], ◌∷◌, ◌++◌, Option, none, some,
  Bool-cases,
}
use mathlib.Core.List.{append-nil, append_assoc, reverse}
use framework_kyrux.Lifecycle.{
  Phase, init, configure, start, shutdown, Module, PhaseCall, World, LifecycleError, phase_failed,
  Core, run_phase, add, activate, start_all, shutdown_each, shutdown_all,
}

module _ {ℓ κ} {S : Type ℓ} {V : Type κ} where
  -- The calls of one activation, the modules that it makes active, and its error: Configure only
  -- follows an Init that succeeded, and the module is active only if both did.
  pub data Activation (m : Module S V)
      : List PhaseCall → List (Module S V) → Option LifecycleError → Type (ℓ ⊔ κ) where
    init_fails : Activation m ((m.name, init, false) ∷ []) [] (some (phase_failed m.name init))
    configure_fails :
        Activation m
          ((m.name, init, true) ∷ (m.name, configure, false) ∷ [])
          []
          (some (phase_failed m.name configure))
    activates : Activation m ((m.name, init, true) ∷ (m.name, configure, true) ∷ []) (m ∷ []) none

  -- The same for some modules, one after the other.
  pub data Activates
      : List (Module S V)
        → List PhaseCall
        → List (Module S V)
        → List (Option LifecycleError)
        → Type (ℓ ⊔ κ) where
    no_module : Activates [] [] [] []
    next_module :
        {m : Module S V} {ms new active : List (Module S V)} {ds cs : List PhaseCall}
        {e : Option LifecycleError} {es : List (Option LifecycleError)}
        → Activation m ds new e
        → Activates ms cs active es
        → Activates (m ∷ ms) (ds ++ cs) (new ++ active) (e ∷ es)

  -- The calls of a start of some modules, in their order, and the error: a Start that fails is the
  -- last call.
  pub data Starts : List (Module S V) → List PhaseCall → Option LifecycleError → Type (ℓ ⊔ κ) where
    all_started : Starts [] [] none
    starts :
        {ms : List (Module S V)} {cs : List PhaseCall} {e : Option LifecycleError} (m : Module S V)
        → Starts ms cs e
        → Starts (m ∷ ms) ((m.name, start, true) ∷ cs) e
    start_fails :
        (m : Module S V) (ms : List (Module S V))
        → Starts (m ∷ ms) ((m.name, start, false) ∷ []) (some (phase_failed m.name start))

  -- The calls of a shutdown of some modules, in this order, and the errors of those that fail.
  pub data Stops : List (Module S V) → List PhaseCall → List LifecycleError → Type (ℓ ⊔ κ) where
    all_stopped : Stops [] [] []
    stops :
        {ms : List (Module S V)} {cs : List PhaseCall} {es : List LifecycleError} (m : Module S V)
        → Stops ms cs es
        → Stops (m ∷ ms) ((m.name, shutdown, true) ∷ cs) es
    stop_fails :
        {ms : List (Module S V)} {cs : List PhaseCall} {es : List LifecycleError} (m : Module S V)
        → Stops ms cs es
        → Stops (m ∷ ms) ((m.name, shutdown, false) ∷ cs) (phase_failed m.name shutdown ∷ es)

  -- Activations of some modules, with their errors; the program goes on after one.
  unfoldable pub activate_all :
      List (Module S V) → Core S V × World S → (Core S V × World S) × List (Option LifecycleError)
  activate_all [] cw = (cw, [])
  activate_all (m ∷ ms) cw =
      let rest = activate_all ms (activate m cw).0 in (rest.0, (activate m cw).1 ∷ rest.1)

  activate-Activation :
      (m : Module S V) (c : Core S V) (w : World S)
      → (ds : List PhaseCall) × (new : List (Module S V)) × Activation m ds new
          (activate m (c, w)).1
        × ((activate m (c, w)).0.0.active ≡ c.active ++ new)
        × ((activate m (c, w)).0.1.called ≡ w.called ++ ds)
  unfolding activate add run_phase
  activate-Activation m c w = elim (Bool-cases (m.runs init w.state).1) [
    | inr i ↦
        rw (i, activate)
          ((m.name, init, false) ∷ [], [], init_fails, sym (append-nil c.active), rw i refl)
    | inl i ↦ elim (Bool-cases (m.runs configure (m.runs init w.state).0).1) [
      | inr k ↦
          rw (i, k, activate)
            (
              (m.name, init, true) ∷ (m.name, configure, false) ∷ [],
              [],
              configure_fails,
              sym (append-nil c.active),
              rw (i, k)
                  (append_assoc w.called ((m.name, init, true) ∷ [])
                    ((m.name, configure, false) ∷ [])),
            )
      | inl k ↦
          rw (i, k, activate)
            (
              (m.name, init, true) ∷ (m.name, configure, true) ∷ [],
              m ∷ [],
              activates,
              refl,
              rw (i, k)
                  (append_assoc w.called ((m.name, init, true) ∷ [])
                    ((m.name, configure, true) ∷ [])),
            )
    ]
  ]

  pub activate_all-Activates :
      (ms : List (Module S V)) (cw : Core S V × World S)
      → (cs : List PhaseCall) × (active : List (Module S V)) × Activates ms cs active
          (activate_all ms cw).1
        × ((activate_all ms cw).0.0.active ≡ cw.0.active ++ active)
        × ((activate_all ms cw).0.1.called ≡ cw.1.called ++ cs)
  unfolding activate_all
  activate_all-Activates [] cw =
      ([], [], no_module, sym (append-nil cw.0.active), sym (append-nil cw.1.called))
  activate_all-Activates (m ∷ ms) (c, w) =
      let (ds, new, one, grown, made) = activate-Activation m c w in
      let (cs, active, rest, same, called) = activate_all-Activates ms (activate m (c, w)).0 in
      (
        ds ++ cs,
        new ++ active,
        next_module one rest,
        same ∙ ap (λ l. l ++ active) grown ∙ append_assoc c.active new active,
        called ∙ ap (λ l. l ++ cs) made ∙ append_assoc w.called ds cs,
      )

  -- The world after a call of which the answer is known.
  abbrev after_call : Module S V → Phase → Bool → World S → World S
  after_call m phase answer w = record {
    state = (m.runs phase w.state).0;
    called = w.called ++ (m.name, phase, answer) ∷ [];
  }

  pub start_all-Starts :
      (ms : List (Module S V)) (w : World S)
      → (cs : List PhaseCall) × Starts ms cs (start_all ms w).1
        × ((start_all ms w).0.called ≡ w.called ++ cs)
  unfolding start_all run_phase
  start_all-Starts [] w = ([], all_started, sym (append-nil w.called))
  start_all-Starts (m ∷ ms) w = elim (Bool-cases (m.runs start w.state).1) [
    | inl e ↦
        let (cs, h, called) = start_all-Starts ms (after_call m start true w) in
        rw (e, start_all)
          (
            (m.name, start, true) ∷ cs,
            starts m h,
            called ∙ append_assoc w.called ((m.name, start, true) ∷ []) cs,
          )
    | inr e ↦ rw (e, start_all) ((m.name, start, false) ∷ [], start_fails m ms, refl)
  ]

  shutdown_each-Stops :
      (ms : List (Module S V)) (w : World S)
      → (cs : List PhaseCall) × Stops ms cs (shutdown_each ms w).1
        × ((shutdown_each ms w).0.called ≡ w.called ++ cs)
  unfolding shutdown_each run_phase
  shutdown_each-Stops [] w = ([], all_stopped, sym (append-nil w.called))
  shutdown_each-Stops (m ∷ ms) w = elim (Bool-cases (m.runs shutdown w.state).1) [
    | inl e ↦
        let (cs, h, called) = shutdown_each-Stops ms (after_call m shutdown true w) in
        rw (e, shutdown_each)
          (
            (m.name, shutdown, true) ∷ cs,
            stops m h,
            called ∙ append_assoc w.called ((m.name, shutdown, true) ∷ []) cs,
          )
    | inr e ↦
        let (cs, h, called) = shutdown_each-Stops ms (after_call m shutdown false w) in
        rw (e, shutdown_each)
          (
            (m.name, shutdown, false) ∷ cs,
            stop_fails m h,
            called ∙ append_assoc w.called ((m.name, shutdown, false) ∷ []) cs,
          )
  ]

  -- All active modules are shut down, the last one first, also after an error.
  pub shutdown_all-Stops :
      (active : List (Module S V)) (w : World S)
      → (cs : List PhaseCall) × Stops (reverse active) cs (shutdown_all active w).1
        × ((shutdown_all active w).0.called ≡ w.called ++ cs)
  unfolding shutdown_all
  shutdown_all-Stops active w = shutdown_each-Stops (reverse active) w
