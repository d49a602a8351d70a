-- ===== src/Retry/Budget.antt =====
-- How long `retry_with_backoff` sleeps: never past the end of its time budget.
use ollama_proxy_server.Prelude.{
  ℕ, zero, suc, ◌+◌, ◌-◌, ◌≤◌, ◌<◌, Bool, List, [], ◌∷◌, ◌++◌, arith, Error, Result, ok, err, Exec,
  ltb, leb, ◌==◌, length, length-append, ltb→lt, inl, inr, Bool-cases, All, All-append, min, ◌*◌,
  ◌^◌,
}
use ollama_proxy_server.Retry.{
  Host, RetryConfig, RetryResult, budget, exhausted, back_off, after_call, run_attempt,
  attempt_loop, retry_with_backoff,
}

-- A sleep that the loop asks for: the time at which it begins, and how long it lasts.
pub record Nap : Type 0 where
  pub since : ℕ
  pub lasts : ℕ

-- The same host and the same call, over a world that also keeps the list of the sleeps.
abbrev pub recording : {W : Type 0} → Host W → Host (W × List Nap)
recording host = record {
  clock = λ s. host.clock s.0;
  sleep = λ d s. (host.sleep d s.0, s.1 ++ record { since = host.clock s.0; lasts = d } ∷ []);
}

abbrev pub quiet : {W A : Type 0} → Exec W A → Exec (W × List Nap) A
quiet call s = let (r, w) = call s.0 in (r, (w, s.1))

-- A sleep of more than a millisecond that ends before `deadline`.
pub record IsFair (deadline : ℕ) (nap : Nap) : Type 0 where
  pub meaningful : 1000 < nap.lasts
  pub in_budget : nap.since + nap.lasts ≤ deadline

module _ {W A : Type 0} (host : Host W) (call : Exec W A) (config : RetryConfig) (loading : Bool)
    (start : ℕ) where
  abbrev Naps : ℕ → List Nap → Type 0
  Naps n naps = All (IsFair (start + budget config loading)) naps × (length naps ≤ n)

  abbrev Sleeps : (List (ℕ × Error) → W × List Nap → RetryResult A × (W × List Nap)) → ℕ → Type 0
  Sleeps next attempt =
      (errors : List (ℕ × Error)) (w : W) (naps : List Nap)
      → Naps (min attempt config.max_retries) naps
      → Naps config.max_retries (next errors (w, naps)).1.1

  Naps-mono : (m n : ℕ) (naps : List Nap) → m ≤ n → Naps m naps → Naps n naps
  Naps-mono m n naps h k = (k.0, omega (arith, k.1))

  nap-Naps :
      (n d : ℕ) (w : W) (naps : List Nap)
      → Naps n naps
      → 1000 < d
      → d ≤ budget config loading - (host.clock w - start)
      → Naps (n + 1) (naps ++ record { since = host.clock w; lasts = d } ∷ [])
  nap-Naps n d w naps h p q =
      let nap : Nap = record { since = host.clock w; lasts = d } in
      (
        All-append (IsFair (start + budget config loading)) naps (nap ∷ []) h.0
            (record { meaningful = p; in_budget = omega arith }, tt),
        omega (arith, length-append naps (nap ∷ []), h.1),
      )

  back_off-Naps :
      (attempt : ℕ) (next : List (ℕ × Error) → W × List Nap → RetryResult A × (W × List Nap))
      (errors : List (ℕ × Error)) (w : W) (naps : List Nap)
      → Naps (min attempt config.max_retries) naps
      → Sleeps next (attempt + 1)
      → Naps config.max_retries
          (back_off
            (recording host)
            (quiet call)
            config
            loading
            start
            attempt
            next
            errors
            (w, naps)).1.1
  unfolding back_off exhausted
  back_off-Naps attempt next errors w naps h go =
      let remaining : ℕ = budget config loading - (host.clock w - start) in
      let delay : ℕ = min (config.base_delay_ms * 2 ^ attempt * 1000) remaining in
      elim (Bool-cases (ltb attempt config.max_retries)) [
        | inl more ↦ rw more (elim (Bool-cases (remaining == 0)) [
          | inl out ↦ rw out (Naps-mono _ _ naps (omega arith) h)
          | inr left ↦ rw left (elim (Bool-cases (ltb 1000 delay)) [
            | inl long ↦ rw long (
                go errors _ _ (
                  Naps-mono _ _ _ (ground arith)
                    (nap-Naps _ delay w naps h (ltb→lt _ _ long) (omega arith))))
            | inr short ↦ rw short (go errors w naps (Naps-mono _ _ naps (omega arith) h))
          ])
        ])
        | inr stop ↦ rw stop (go errors w naps (Naps-mono _ _ naps (omega arith) h))
      ]

  after_call-Naps :
      (attempt : ℕ) (next : List (ℕ × Error) → W × List Nap → RetryResult A × (W × List Nap))
      (errors : List (ℕ × Error)) (r : Result A) (w : W) (naps : List Nap)
      → Naps (min attempt config.max_retries) naps
      → Sleeps next (attempt + 1)
      → Naps config.max_retries
          (after_call
            (recording host)
            (quiet call)
            config
            loading
            start
            attempt
            next
            errors
            r
            (w, naps)).1.1
  unfolding after_call
  after_call-Naps attempt next errors (ok a) w naps h go = Naps-mono _ _ naps (omega arith) h
  after_call-Naps attempt next errors (err e) w naps h go =
      back_off-Naps attempt next (errors ++ (attempt + 1, e) ∷ []) w naps h go

  attempt_loop-Naps :
      (left attempt : ℕ)
      → Sleeps
          (attempt_loop (recording host) (quiet call) config loading start left attempt)
          attempt
  unfolding attempt_loop run_attempt exhausted
  attempt_loop-Naps zero attempt errors w naps h = Naps-mono _ _ naps (omega arith) h
  attempt_loop-Naps (suc left) attempt errors w naps h =
      elim (Bool-cases (leb (budget config loading) (host.clock w - start))) [
        | inl out ↦ rw out (Naps-mono _ _ naps (omega arith) h)
        | inr more ↦ rw more (
            after_call-Naps attempt _ errors (call w).0 (call w).1 naps h
              (attempt_loop-Naps left (attempt + 1)))
      ]

-- Whatever the called function and the clock do, the loop sleeps at most `max_retries` times, each
-- time for more than a millisecond, and each sleep is planned to end within the time budget, counted
-- from the start of the call.
pub retry_with_backoff-naps :
    {W A : Type 0} (host : Host W) (call : Exec W A) (config : RetryConfig) (loading : Bool) (w : W)
    → All
        (IsFair (host.clock w + budget config loading))
        (retry_with_backoff (recording host) (quiet call) config loading (w, [])).1.1
      × (length (retry_with_backoff (recording host) (quiet call) config loading (w, [])).1.1
          ≤ config.max_retries)
unfolding retry_with_backoff
retry_with_backoff-naps host call config loading w =
    attempt_loop-Naps host call config loading (host.clock w) (config.max_retries + 1) 0 [] w []
      (tt, omega arith)
