-- ===== src/Tests/Services.antt =====
-- The small services and the choice of a model at concrete inputs.
use ollama_proxy_server.Prelude.{
  ℕ, ◌≤◌, ◌≡◌, refl, true, false, some, List, [], ◌∷◌, ◌++◌, other_error, err, Exec, length, In,
  inl, inr, All, arith,
}
use ollama_proxy_server.Services.Rollback.{
  RollbackStack, register_rollback, execute_rollbacks, execute_rollbacks-later,
}
use ollama_proxy_server.Services.Batching.{new_batcher, run_rounds, InBounds, run_rounds-InBounds}
use ollama_proxy_server.Proxy.AutoModel.{ModelMetadata, Wanted, best_model}
use ollama_proxy_server.Proxy.AutoModel.Choice.{suits, best_model-suits}

abbrev undo : ℕ → Exec (List ℕ) (Unit {0})
undo n undone = (err (other_error "gone"), undone ++ n ∷ [])

abbrev later_phases : RollbackStack (List ℕ)
later_phases = ("load", undo 3) ∷ ("pull", undo 2) ∷ []

execute_rollbacks-later_example :
    execute_rollbacks "plan" (later_phases ++ register_rollback "plan" (undo 1) []) []
    ≡ ([], 3 ∷ 2 ∷ [])
execute_rollbacks-later_example =
    execute_rollbacks-later "plan" later_phases [] (undo 1) [] (refl, (refl, tt))

abbrev two_rounds : List (List ℕ × ℕ)
two_rounds = (7 ∷ 8 ∷ [], 9000) ∷ (9 ∷ [], 100) ∷ []

run_rounds-InBounds_example :
    InBounds (run_rounds two_rounds (new_batcher 5000)).1
    × All (λ batch. length batch ≤ 1000) (run_rounds two_rounds (new_batcher 5000)).0
unfolding new_batcher
run_rounds-InBounds_example =
    run_rounds-InBounds two_rounds (new_batcher 5000) (omega arith, omega arith)

abbrev coder : ModelMetadata
coder = record {
  model_name = "coder";
  supports_images = false;
  is_code_model = true;
  is_fast_model = true;
}

abbrev talker : ModelMetadata
talker = record {
  model_name = "talker";
  supports_images = true;
  is_code_model = false;
  is_fast_model = false;
}

abbrev code_wanted : Wanted
code_wanted = record {
  has_images = false;
  contains_code = true;
  fast_model = true;
  requires_reasoning = true;
}

best_model-suits_example :
    (best : ModelMetadata) × (best_model code_wanted (talker ∷ coder ∷ []) ≡ some best)
    × In best (talker ∷ coder ∷ [])
    × (suits code_wanted best ≡ true)
unfolding suits
best_model-suits_example =
    best_model-suits code_wanted (talker ∷ coder ∷ []) coder (inr (inl refl)) refl
