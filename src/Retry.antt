-- ===== src/Retry.antt =====
-- app/core/retry.py: `retry_with_backoff`. Times are whole microseconds, and the timeouts of a
-- configuration, which the source gives in seconds, are microseconds here. The clock and the sleep
-- of the event loop are a `Host` over a state `W` of the world; the called function changes that
-- state. An entry of `errors` is the number of the attempt and the exception, whose rendering as a
-- text (and its cut to 200 characters) is left out. Every `Exception` is retried, as at the only
-- call sites. The settings keep `max_retries` at 0 or more, so it is a natural number.
pub mod Attempts
pub mod Budget
use ollama_proxy_server.Prelude.{
  ℕ, zero, suc, ◌+◌, ◌-◌, ◌*◌, ◌^◌, min, Bool, true, false, Option, none, some, List, [], ◌∷◌, ◌++◌,
  Error, value_error, Result, ok, err, Exec, ltb, leb, ◌==◌, if◌then◌else◌,
}

pub record Host (W : Type 0) : Type 0 where
  pub clock : W → ℕ
  pub sleep : ℕ → W → W

pub record RetryConfig : Type 0 where
  pub max_retries : ℕ
  pub total_timeout : ℕ
  pub loading_timeout : ℕ
  pub base_delay_ms : ℕ

-- `__post_init__`
unfoldable pub post_init : RetryConfig → Result RetryConfig
post_init config =
    if config.total_timeout == 0
    then err (value_error "total_timeout_seconds must be positive")
    else if config.base_delay_ms == 0
    then err (value_error "base_delay_ms must be positive")
    else ok config

pub record RetryResult (A : Type 0) : Type 0 where
  pub success : Bool
  pub result : Option A
  pub attempts : ℕ
  pub total_duration : ℕ
  pub errors : List (ℕ × Error)

unfoldable pub budget : RetryConfig → Bool → ℕ
budget config is_loading_operation =
    if is_loading_operation then config.loading_timeout else config.total_timeout

module _ {W A : Type 0} (host : Host W) (call : Exec W A) (config : RetryConfig)
    (is_loading_operation : Bool) (start_time : ℕ) where
  -- the statements behind the loop; `attempts` is `attempt + 1` for the last `attempt`
  pub exhausted : ℕ → List (ℕ × Error) → W → RetryResult A × W
  exhausted attempts errors w = (
    record {
      success = false;
      result = none;
      attempts = attempts;
      total_duration = host.clock w - start_time;
      errors = errors;
    },
    w,
  )

  -- the delay before the next attempt; `next` is the rest of the loop
  pub back_off :
      ℕ → (List (ℕ × Error) → W → RetryResult A × W) → List (ℕ × Error) → W → RetryResult A × W
  back_off attempt next errors w =
      let delay = config.base_delay_ms * 2 ^ attempt * 1000 in
      let elapsed = host.clock w - start_time in
      let remaining_time = budget config is_loading_operation - elapsed in
      let actual_delay = min delay remaining_time in
      if ltb attempt config.max_retries
      then if remaining_time == 0
        then exhausted (attempt + 1) errors w
        else next errors (if ltb 1000 actual_delay then host.sleep actual_delay w else w)
      else next errors w

  pub after_call :
      ℕ
      → (List (ℕ × Error) → W → RetryResult A × W)
      → List (ℕ × Error)
      → Result A
      → W
      → RetryResult A × W
  after_call attempt next errors (ok a) w = (
    record {
      success = true;
      result = some a;
      attempts = attempt + 1;
      total_duration = host.clock w - start_time;
      errors = errors;
    },
    w,
  )
  after_call attempt next errors (err e) w =
      back_off attempt next (errors ++ (attempt + 1, e) ∷ []) w

  -- one round of the loop
  pub run_attempt :
      ℕ → (List (ℕ × Error) → W → RetryResult A × W) → List (ℕ × Error) → W → RetryResult A × W
  run_attempt attempt next errors w =
      if leb (budget config is_loading_operation) (host.clock w - start_time)
      then exhausted (attempt + 1) errors w
      else let (r, w') = call w in after_call attempt next errors r w'

  -- `for attempt in range(max_retries + 1)`, by the number of rounds that are left
  pub attempt_loop : ℕ → ℕ → List (ℕ × Error) → W → RetryResult A × W
  attempt_loop zero attempt errors w = exhausted attempt errors w
  attempt_loop (suc left) attempt errors w =
      run_attempt attempt (attempt_loop left (attempt + 1)) errors w

module _ {W A : Type 0} (host : Host W) (call : Exec W A) (config : RetryConfig)
    (is_loading_operation : Bool) where
  pub retry_with_backoff : W → RetryResult A × W
  retry_with_backoff w =
      attempt_loop host call config is_loading_operation (host.clock w) (config.max_retries + 1) 0
        [] w
