-- ===== src/Lifecycle.antt =====
-- The life of the modules of a Core (core/lifecycle/lifecycle.go, core/registry/registry.go,
-- core/container/container.go, core/core.go). What a phase of a module does is a change of a state
-- of the program's own, with its success; the calls of phases are kept in the order in which they
-- happened. The events that are published inform only.
pub mod Phases
pub mod Order
pub mod Tests
use framework_kyrux.Prelude.{
  String, Bool, true, false, List, [], ◌∷◌, ◌++◌, Option, none, some, Result, ok, err,
  if◌then◌else◌,
}
use framework_kyrux.Prelude.Dict.{Dict, lookup, insert, keys}
use mathlib.Core.List.{reverse}

pub data Phase : Type 0 where
  init configure start shutdown : Phase

-- registry.Module: its name, the value that it may produce, and what a phase does.
pub record Module {ℓ κ} (S : Type ℓ) (V : Type κ) : Type (ℓ ⊔ κ) where
  pub name : String
  pub produces : S → Option V
  pub runs : Phase → S → S × Bool

-- A call of a phase of a module that has this name, and whether it succeeded.
abbrev pub PhaseCall : Type 0
PhaseCall = String × Phase × Bool

-- The calls so far, with the state of the program.
pub record World {ℓ} (S : Type ℓ) : Type ℓ where
  pub state : S
  pub called : List PhaseCall

pub data LifecycleError : Type 0 where
  phase_failed : String → Phase → LifecycleError
  no_value not_registered already_registered : String → LifecycleError

module _ {ℓ κ} {S : Type ℓ} {V : Type κ} where
  -- One call of a phase of a module.
  unfoldable pub run_phase : Phase → Module S V → World S → World S × Bool
  run_phase phase m w =
      let ran = m.runs phase w.state in
      (record { state = ran.0; called = w.called ++ (m.name, phase, ran.1) ∷ [] }, ran.1)

  -- Manager.Add: the active modules after it, or the error.
  unfoldable pub add :
      Module S V → List (Module S V) → World S → World S × Result LifecycleError (List (Module S V))
  unfolding run_phase
  add m active w =
      let inited = run_phase init m w in
      let configured = run_phase configure m inited.0 in
      if inited.1
      then (if configured.1
          then (configured.0, ok (active ++ m ∷ []))
          else (configured.0, err (phase_failed m.name configure)))
      else (inited.0, err (phase_failed m.name init))

  -- Manager.StartAll
  unfoldable pub start_all : List (Module S V) → World S → World S × Option LifecycleError
  unfolding run_phase
  start_all [] w = (w, none)
  start_all (m ∷ ms) w =
      let started = run_phase start m w in
      let rest = start_all ms started.0 in
      if started.1 then rest else (started.0, some (phase_failed m.name start))

  -- The loop of ShutdownAll, over the modules in its order.
  unfoldable pub shutdown_each : List (Module S V) → World S → World S × List LifecycleError
  unfolding run_phase
  shutdown_each [] w = (w, [])
  shutdown_each (m ∷ ms) w =
      let stopped = run_phase shutdown m w in
      let rest = shutdown_each ms stopped.0 in
      if stopped.1 then rest else (rest.0, phase_failed m.name shutdown ∷ rest.1)

  -- Manager.ShutdownAll
  unfoldable pub shutdown_all : List (Module S V) → World S → World S × List LifecycleError
  unfolding shutdown_each
  shutdown_all active w = shutdown_each (reverse active) w

-- registry.Register: `err` is its panic.
unfoldable pub register {ℓ} : {F : Type ℓ} → String → F → Dict F → Result LifecycleError (Dict F)
register name f items = elim (lookup name items) [
  | some _ ↦ err (already_registered name)
  | none ↦ ok (insert name f items)
]

-- registry.New: the factory makes a new module.
unfoldable pub new_module {ℓ} :
    {M : Type ℓ} → String → Dict {ℓ} (Unit {0} → M) → Result LifecycleError M
new_module name items = elim (lookup name items) [
  | none ↦ err (not_registered name)
  | some f ↦ ok (f tt)
]

-- container.Provide and Resolve; `typed` reads a value as one of the type asked for.
unfoldable pub provide {ℓ} : {V : Type ℓ} → String → V → Dict V → Dict V
provide name value values = insert name value values

unfoldable pub resolve_as {ℓ κ} :
    {V : Type ℓ} {T : Type κ} → (V → Option T) → String → Dict V → Option T
resolve_as typed name values = elim (lookup name values) [ none ↦ none | some v ↦ typed v ]

-- Core: the active modules and the container
pub record Core {ℓ κ} (S : Type ℓ) (V : Type κ) : Type (ℓ ⊔ κ) where
  pub active : List (Module S V)
  pub values : Dict V

module _ {ℓ κ} {S : Type ℓ} {V : Type κ} where
  unfoldable pub new_core : Core S V
  new_core = record { active = []; values = [] }

  -- Activate
  unfoldable pub activate :
      Module S V → Core S V × World S → (Core S V × World S) × Option LifecycleError
  unfolding add
  activate m (c, w) = elim (add m c.active w).1 [
    | err e ↦ ((c, (add m c.active w).0), some e)
    | ok active ↦ ((record c { active = active }, (add m c.active w).0), none)
  ]

  -- UseModule
  unfoldable pub use_module :
      Module S V → String → Core S V × World S → (Core S V × World S) × Result LifecycleError V
  unfolding activate provide
  use_module m key cw = elim (activate m cw).1 [
    | some e ↦ ((activate m cw).0, err e)
    | none ↦ elim (m.produces (activate m cw).0.1.state) [
      | none ↦ ((activate m cw).0, err (no_value m.name))
      | some v ↦ (
        (
          record (activate m cw).0.0 { values = provide key v (activate m cw).0.0.values },
          (activate m cw).0.1,
        ),
        ok v,
      )
    ]
  ]

  -- Use
  unfoldable pub use_named :
      Dict {ℓ ⊔ κ} (Unit {0} → Module S V)
      → String
      → String
      → Core S V × World S
      → (Core S V × World S) × Result LifecycleError V
  unfolding new_module use_module
  use_named items name key cw = elim (new_module name items) [
    | err e ↦ (cw, err e)
    | ok m ↦ use_module m key cw
  ]
