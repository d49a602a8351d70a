-- ===== src/Services/Verification.antt =====
-- app/services/verification_engine.py: `VerificationEngine`. The fractions of the source are compared
-- as whole numbers: a tenth is one of ten, and the error rate is in thousandths.
use ollama_proxy_server.Prelude.{
  ℕ, ◌*◌, ◌≤◌, ◌≡◌, ◌↔◌, Bool, true, false, not, ◌&&◌, List, [], ◌∷◌, ◌++◌, String, str_eq, any,
  ltb, length, if◌then◌else◌, arith,
}

pub record RoutingResult : Type 0 where
  pub requires_reasoning : Bool
  pub model_capabilities : List String
  pub prompt_tokens : ℕ
  pub model_context_length : ℕ
  pub estimated_vram_usage : ℕ
  pub server_vram_available : ℕ
  pub server_error_rate : ℕ

pub record VerificationReport : Type 0 where
  pub checks : List (String × (Bool × String))
  pub passed : Bool
  pub recommendations : List String

abbrev pub fail_check : String → String → VerificationReport → VerificationReport
fail_check name message report = record report {
  checks = report.checks ++ (name, (false, message)) ∷ [];
  passed = false;
}

abbrev pub advise : String → String → String → VerificationReport → VerificationReport
advise name message recommendation report = record report {
  checks = report.checks ++ (name, (false, message)) ∷ [];
  recommendations = report.recommendations ++ recommendation ∷ [];
}

-- the tests of the four checks
unfoldable pub lacks_reasoning : RoutingResult → Bool
lacks_reasoning r = r.requires_reasoning && not (any (str_eq "reasoning") r.model_capabilities)

unfoldable pub verify_routing_decision : RoutingResult → VerificationReport
verify_routing_decision r =
    let report0 : VerificationReport = record {
      checks = [];
      passed = true;
      recommendations = [];
    } in
    let report1 =
      if lacks_reasoning r
      then fail_check "capability_match" "Model lacks reasoning capability" report0
      else report0 in
    let report2 =
      if ltb (r.model_context_length * 8) (r.prompt_tokens * 10)
      then advise "context_sufficiency" "Prompt nears model context limit"
          "Consider model with larger context window" report1
      else report1 in
    let report3 =
      if ltb (r.server_vram_available * 9) (r.estimated_vram_usage * 10)
      then fail_check "vram_headroom" "Insufficient VRAM headroom" report2
      else report2 in
    if ltb 100 r.server_error_rate
    then advise "server_health" "Elevated server error rate" "Consider alternative server" report3
    else report3

-- A decision passes exactly if the model has the reasoning that is asked for and the estimated memory
-- is at most nine tenths of the server's; and a report without any remark is that of a decision which
-- also keeps the prompt within eight tenths of the context and has a server with at most a tenth of
-- errors.
pub verify_routing_decision_iff :
    (r : RoutingResult)
    → (((verify_routing_decision r).passed ≡ true) ↔ (
        (lacks_reasoning r ≡ false) × (r.estimated_vram_usage * 10 ≤ r.server_vram_available * 9)))
      × ((length (verify_routing_decision r).checks ≡ 0) ↔ (
          (lacks_reasoning r ≡ false)
          × (r.estimated_vram_usage * 10 ≤ r.server_vram_available * 9)
          × (r.prompt_tokens * 10 ≤ r.model_context_length * 8)
          × (r.server_error_rate ≤ 100)))
unfolding verify_routing_decision
verify_routing_decision_iff r = ground arith
