-- ===== src/Lifecycle/Tests.antt =====
-- The life of a core with a module that fails, and the theorem at it.
use framework_kyrux.Prelude.{
  ℕ, ◌+◌, ◌≡◌, refl, String, Bool, true, false, List, [], ◌∷◌, none, some, Result, err, dec_text,
}
use framework_kyrux.Prelude.Dict.{Dict, lookup, insert}
use framework_kyrux.Lifecycle.{
  Phase, init, configure, start, shutdown, Module, World, LifecycleError, run_phase, add, start_all,
  shutdown_each, shutdown_all, new_core, activate, no_value, phase_failed, already_registered,
  register, use_module,
}
use framework_kyrux.Lifecycle.Phases.{activate_all}
use framework_kyrux.Lifecycle.Order.{live, IsOrdered, live-IsOrdered}

-- A module that counts its calls and fails in one phase.
abbrev in_phase : Phase → Phase → Bool
in_phase init init = true
in_phase configure configure = true
in_phase start start = true
in_phase shutdown shutdown = true
in_phase _ _ = false

abbrev sound : String → Module ℕ String
sound name = record { name = name; produces = λ s. none; runs = λ p s. (s + 1, true) }

abbrev failing : String → Phase → Module ℕ String
failing name phase = record (sound name) {
  runs = λ p s. (s + 1, elim (in_phase phase p) [ true ↦ false | false ↦ true ]);
}

abbrev modules : List (Module ℕ String)
modules =
    sound "a"
    ∷ failing "b" init
    ∷ failing "c" configure
    ∷ failing "d" start
    ∷ failing "e" shutdown
    ∷ []

abbrev world : World ℕ
world = record { state = 0; called = [] }

lived :
    (live modules (new_core, world)).world.called
    ≡ ("a", init, true)
      ∷ ("a", configure, true)
      ∷ ("b", init, false)
      ∷ ("c", init, true)
      ∷ ("c", configure, false)
      ∷ ("d", init, true)
      ∷ ("d", configure, true)
      ∷ ("e", init, true)
      ∷ ("e", configure, true)
      ∷ ("a", start, true)
      ∷ ("d", start, false)
      ∷ ("e", shutdown, false)
      ∷ ("d", shutdown, true)
      ∷ ("a", shutdown, true)
      ∷ []
unfolding live activate_all activate add run_phase start_all shutdown_all shutdown_each new_core
lived = refl

start_refused : (live modules (new_core, world)).start_error ≡ some (phase_failed "d" start)
unfolding live activate_all activate add run_phase start_all new_core
start_refused = refl

abbrev factories : Dict ℕ
factories = ("a", 2) ∷ []

abbrev refused : Result LifecycleError (Dict ℕ)
refused = err (already_registered "a")

registered_twice : register "a" 3 factories ≡ refused
unfolding register lookup insert dec_text
registered_twice = refl

-- A module that produces no value stays active.
valueless_active : (use_module (sound "a") "key" (new_core, world)).1 ≡ err (no_value "a")
unfolding use_module activate add run_phase new_core
valueless_active = refl

live-IsOrdered_example : IsOrdered modules [] (live modules (new_core, world))
unfolding new_core
live-IsOrdered_example = live-IsOrdered modules new_core world refl
