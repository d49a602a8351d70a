-- ===== src/Tests/Retries.antt =====
-- `retry_with_backoff` at a call that always fails, over a world that counts the calls.
use ollama_proxy_server.Prelude.{ℕ, ◌+◌, ◌≤◌, false, [], other_error, err, Exec, length, All}
use ollama_proxy_server.Retry.{Host, RetryConfig, retry_with_backoff, budget}
use ollama_proxy_server.Retry.Attempts.{IsTally, retry_with_backoff-IsTally}
use ollama_proxy_server.Retry.Budget.{IsFair, recording, quiet, retry_with_backoff-naps}

abbrev frozen : Host ℕ
frozen = record { clock = λ w. 0; sleep = λ d w. w }

abbrev ticking : Host ℕ
ticking = record { clock = λ w. w; sleep = λ d w. w + d }

abbrev down : Exec ℕ ℕ
down w = (err (other_error "down"), w + 10000)

abbrev three_tries : RetryConfig
three_tries = record {
  max_retries = 2;
  total_timeout = 2000000;
  loading_timeout = 15000000;
  base_delay_ms = 50;
}

retry_with_backoff-IsTally_example :
    IsTally 3 (retry_with_backoff ticking down three_tries false 0).0
retry_with_backoff-IsTally_example = retry_with_backoff-IsTally ticking down three_tries false 0

retry_with_backoff-naps_example :
    All
      (IsFair 2000000)
      (retry_with_backoff (recording ticking) (quiet down) three_tries false (0, [])).1.1
    × (length (retry_with_backoff (recording ticking) (quiet down) three_tries false (0, [])).1.1
        ≤ 2)
unfolding budget
retry_with_backoff-naps_example = retry_with_backoff-naps ticking down three_tries false 0
