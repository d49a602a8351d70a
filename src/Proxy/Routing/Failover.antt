-- ===== src/Proxy/Routing/Failover.antt =====
-- What `_reverse_proxy` returns: it gives up only behind an attempt at each of its candidates.
use mathlib.Core.List.{Perm}
use mathlib.Core.List.Perm
use ollama_proxy_server.Prelude.{
  ℕ, ◌≤◌, ◌≡◌, Bool, false, Option, List, length, String, Exec, is_empty,
}
use ollama_proxy_server.Json.{Json}
use ollama_proxy_server.Retry.{Host, RetryConfig}
use ollama_proxy_server.Proxy.Backend.{OllamaServer, BackendRequest, Client}
use ollama_proxy_server.Proxy.Routing.{Gateway, Answer, Round}
use ollama_proxy_server.Proxy.Routing.Candidates.{Distinct}
use ollama_proxy_server.Proxy.Routing.Attempts.{Outcome}

module _ {W : Type 0} (client : Client W) (host : Host W) (loads : String → Option Json)
    (config : RetryConfig) (loading : Bool) (log_id : Option ℕ)
    (proxy_to_vllm : OllamaServer → Exec W Answer) (to_server : OllamaServer → BackendRequest) where
  Goes : Round W → ℕ → Type 0
  Goes next n =
      (index : ℕ) (candidates : List OllamaServer) (tried : List String) (g : Gateway W)
      → length candidates ≤ n
      → is_empty candidates ≡ false
      → Distinct candidates
      → Outcome proxy_to_vllm candidates tried (next index candidates tried g).0
