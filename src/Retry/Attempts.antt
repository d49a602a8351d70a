-- ===== src/Retry/Attempts.antt =====
-- How many attempts `retry_with_backoff` makes and reports, and what it returns.
use ollama_proxy_server.Prelude.{
  ℕ, zero, suc, ◌+◌, ◌-◌, ◌≤◌, ◌<◌, ◌≡◌, refl, ◌⊎◌, inl, inr, Bool, true, false, none, some, List,
  [], ◌∷◌, ◌++◌, arith, Error, Result, ok, err, Exec, ltb, leb, ◌==◌, length, length-append,
  Bool-cases,
}
use ollama_proxy_server.Retry.{
  Host, RetryConfig, RetryResult, budget, exhausted, back_off, after_call, run_attempt,
  attempt_loop, retry_with_backoff,
}

-- What a result says of the attempts that led to it, of which the last has the number `last`.
pub record IsTally {A : Type 0} (last : ℕ) (r : RetryResult A) : Type 0 where
  pub at_least_one : 1 ≤ r.attempts
  pub at_most : r.attempts ≤ last
  pub on_success :
      r.success ≡ true → (r.attempts ≡ length r.errors + 1) × ((a : A) × (r.result ≡ some a))
  pub on_failure :
      r.success ≡ false
      → ((r.attempts ≡ length r.errors) ⊎ (r.attempts ≡ length r.errors + 1)) × (r.result ≡ none)

module _ {W A : Type 0} (host : Host W) (call : Exec W A) (config : RetryConfig) (loading : Bool)
    (start : ℕ) (last : ℕ) where
  abbrev Goes : (List (ℕ × Error) → W → RetryResult A × W) → ℕ → Type 0
  Goes next attempt =
      (errors : List (ℕ × Error)) (w : W) → length errors ≡ attempt → IsTally last (next errors w).0

  exhausted-IsTally :
      (attempts : ℕ) (errors : List (ℕ × Error)) (w : W)
      → 1 ≤ attempts
      → attempts ≤ last
      → (attempts ≡ length errors) ⊎ (attempts ≡ length errors + 1)
      → IsTally last (exhausted host call config loading start attempts errors w).0
  unfolding exhausted
  exhausted-IsTally attempts errors w h k c = record {
    at_least_one = h;
    at_most = k;
    on_success = λ e. cc;
    on_failure = λ e. (c, refl);
  }

  back_off-IsTally :
      (attempt : ℕ) (next : List (ℕ × Error) → W → RetryResult A × W) (errors : List (ℕ × Error))
      (w : W)
      → length errors ≡ attempt + 1
      → config.max_retries + 1 ≡ last
      → Goes next (attempt + 1)
      → IsTally last (back_off host call config loading start attempt next errors w).0
  unfolding back_off
  back_off-IsTally attempt next errors w h m go =
      elim (Bool-cases (ltb attempt config.max_retries)) [
        | inl more ↦
            rw more (elim (Bool-cases (budget config loading - (host.clock w - start) == 0)) [
              | inl out ↦ rw out (
                  exhausted-IsTally (attempt + 1) errors w (omega arith) (ground arith)
                    (inl (omega arith)))
              | inr left ↦ rw left (go errors _ h)
            ])
        | inr stop ↦ rw stop (go errors w h)
      ]

  run_attempt-IsTally :
      (attempt : ℕ) (next : List (ℕ × Error) → W → RetryResult A × W) (errors : List (ℕ × Error))
      (w : W)
      → length errors ≡ attempt
      → attempt < last
      → config.max_retries + 1 ≡ last
      → Goes next (attempt + 1)
      → IsTally last (run_attempt host call config loading start attempt next errors w).0
  unfolding run_attempt
  run_attempt-IsTally attempt next errors w h k m go =
      elim (Bool-cases (leb (budget config loading) (host.clock w - start))) [
        | inl out ↦ rw out (
            exhausted-IsTally (attempt + 1) errors w (omega arith) (omega arith)
              (inr (omega arith)))
        | inr left ↦ rw left (called (call w).0 (call w).1)
      ]
    where
      called :
          (r : Result A) (w' : W)
          → IsTally last (after_call host call config loading start attempt next errors r w').0
      called (ok a) w' =
          unfold after_call in
          record {
            at_least_one = omega arith;
            at_most = omega arith;
            on_success = λ e. (omega arith, (a, refl));
            on_failure = λ e. cc;
          }
      called (err e) w' =
          unfold after_call in
          back_off-IsTally attempt next (errors ++ (attempt + 1, e) ∷ []) w'
            (omega (arith, length-append errors ((attempt + 1, e) ∷ []))) m go

  attempt_loop-IsTally :
      (left attempt : ℕ) (errors : List (ℕ × Error)) (w : W)
      → length errors ≡ attempt
      → attempt + left ≡ last
      → 1 ≤ last
      → config.max_retries + 1 ≡ last
      → IsTally last (attempt_loop host call config loading start left attempt errors w).0
  unfolding attempt_loop
  attempt_loop-IsTally zero attempt errors w h s p m =
      exhausted-IsTally attempt errors w (omega arith) (omega arith) (inl (omega arith))
  attempt_loop-IsTally (suc left) attempt errors w h s p m =
      run_attempt-IsTally attempt (attempt_loop host call config loading start left (attempt + 1))
        errors w h (omega arith) m
        (λ errors' w' h'. attempt_loop-IsTally left (attempt + 1) errors' w' h' (omega arith) p m)

-- Whatever the called function and the clock do, at least one and at most `max_retries + 1` attempts
-- are reported. On success there is a result, and every attempt before the last one has left its
-- error. On failure there is no result, and the attempts reported are the errors, or one more: the
-- attempt at whose start the time was found to be up.
pub retry_with_backoff-IsTally :
    {W A : Type 0} (host : Host W) (call : Exec W A) (config : RetryConfig) (loading : Bool) (w : W)
    → IsTally (config.max_retries + 1) (retry_with_backoff host call config loading w).0
unfolding retry_with_backoff
retry_with_backoff-IsTally host call config loading w =
    attempt_loop-IsTally host call config loading (host.clock w) (config.max_retries + 1)
      (config.max_retries + 1) 0 [] w refl (omega arith) (omega arith) refl
