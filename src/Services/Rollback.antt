-- ===== src/Services/Rollback.antt =====
-- app/core/phase_rollback.py: `PhaseRollbackManager`. The stack is a list with its top at the head; a
-- rollback function changes a state `W` of the world and may raise.
use ollama_proxy_server.Prelude.{
  ◌≡◌, refl, false, List, [], ◌∷◌, ◌++◌, String, Exec, str_eq, eq_iff, All, if◌then◌else◌,
}

abbrev pub RollbackStack : Type 0 → Type 0
RollbackStack W = List (String × Exec W (Unit {0}))

module _ {W : Type 0} where
  unfoldable pub register_rollback : String → Exec W (Unit {0}) → RollbackStack W → RollbackStack W
  register_rollback phase_name rollback_fn rollback_stack =
      (phase_name, rollback_fn) ∷ rollback_stack

  -- The stack that is left, and the world. What a rollback raises is logged.
  unfoldable pub execute_rollbacks : String → RollbackStack W → W → RollbackStack W × W
  execute_rollbacks failed_phase [] w = ([], w)
  execute_rollbacks failed_phase ((phase_name, rollback_fn) ∷ rollback_stack) w =
      let rest = execute_rollbacks failed_phase rollback_stack (rollback_fn w).1 in
      if str_eq phase_name failed_phase then (rollback_stack, w) else rest

  -- The rollbacks of a list of phases, one after the other, whatever they raise
  abbrev pub run_each : RollbackStack W → W → W
  run_each [] w = w
  run_each ((phase_name, rollback_fn) ∷ later) w = run_each later (rollback_fn w).1

  -- When a registered phase fails, the phases that were registered after its last registration are
  -- rolled back, the latest first and each of them even if another one raises; its own rollback does
  -- not run, and the phases before it stay on the stack.
  pub execute_rollbacks-later :
      (failed_phase : String) (later earlier : RollbackStack W) (own : Exec W (Unit {0})) (w : W)
      → All (λ phase. str_eq phase.0 failed_phase ≡ false) later
      → execute_rollbacks failed_phase (later ++ register_rollback failed_phase own earlier) w
        ≡ (earlier, run_each later w)
  unfolding execute_rollbacks register_rollback
  execute_rollbacks-later failed_phase [] earlier own w h =
      rw ((eq_iff failed_phase failed_phase).1 refl) refl
  execute_rollbacks-later failed_phase ((phase_name, rollback_fn) ∷ later) earlier own w h =
      rw h.0 (execute_rollbacks-later failed_phase later earlier own (rollback_fn w).1 h.1)
