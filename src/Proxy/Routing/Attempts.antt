-- ===== src/Proxy/Routing/Attempts.antt =====
-- What may come of an attempt at one server, and of a request over the candidates that are left.
use mathlib.Core.List.{Perm}
use ollama_proxy_server.Prelude.{
  ℕ, ◌≡◌, ◌⊎◌, refl, inl, inr, Bool, true, Option, some, List, ◌++◌, map, In, Bool-cases, String,
  Error, http, Result, ok, err, Exec, str_eq,
}
use ollama_proxy_server.Json.{Json}
use ollama_proxy_server.Retry.{Host, RetryConfig, RetryResult}
use ollama_proxy_server.Retry.Attempts.{retry_with_backoff-IsTally}
use ollama_proxy_server.Proxy.Backend.{
  OllamaServer, BackendRequest, BackendResponse, Client, send_backend_request,
}
use ollama_proxy_server.Proxy.Routing.{
  Gateway, Answer, Attempt, answered, aborted, failed, all_unavailable, after_vllm, after_retries,
  after_first, try_server,
}

abbrev pub name_of : OllamaServer → String
name_of s = s.name

module _ {W : Type 0} (proxy_to_vllm : OllamaServer → Exec W Answer) where
  -- An error is the HTTPException of a vLLM server's adapter, in some state of the world.
  abbrev pub IsVllmError : OllamaServer → Error → Type 0
  IsVllmError s e =
      (str_eq s.server_type "vllm" ≡ true)
      × (w : W) × (status : ℕ) × (detail : String) × ((proxy_to_vllm s w).0 ≡ err e)
      × (e ≡ http status detail)

  -- What may come of a request whose candidates are those, where the names have been tried.
  abbrev pub Outcome : List OllamaServer → List String → Result (Answer × OllamaServer) → Type 0
  Outcome candidates tried (ok (answer, chosen)) = In chosen candidates
  Outcome candidates tried (err e) =
      ((s : OllamaServer) × In s candidates × IsVllmError s e)
      ⊎ ((names : List String) × Perm names (tried ++ map name_of candidates)
          × (e ≡ all_unavailable names))

  -- What an attempt at a server may tell: an error ends the request only if it is the adapter's.
  abbrev pub Stops : OllamaServer → Attempt → Type 0
  Stops s (answered a) = Unit
  Stops s (aborted e) = IsVllmError s e
  Stops s failed = Unit

module _ {W : Type 0} (client : Client W) (host : Host W) (loads : String → Option Json)
    (config : RetryConfig) (loading : Bool) (log_id : Option ℕ)
    (proxy_to_vllm : OllamaServer → Exec W Answer) (to_server : OllamaServer → BackendRequest) where
  after_vllm-Stops :
      (s : OllamaServer) (w w' : W) (g : Gateway W) (r : Result Answer)
      → str_eq s.server_type "vllm" ≡ true
      → (proxy_to_vllm s w).0 ≡ r
      → Stops proxy_to_vllm s
          (after_vllm client host loads config loading log_id proxy_to_vllm to_server s r w' g).0
  unfolding after_vllm
  after_vllm-Stops s w w' g (ok a) v e = tt
  after_vllm-Stops s w w' g (err (http status detail)) v e = (v, w, status, detail, e, refl)
  after_vllm-Stops s w w' g (err other) v e = tt

  after_retries-Stops :
      (s : OllamaServer) (r : RetryResult BackendResponse) (w : W) (g : Gateway W)
      → (r.success ≡ true → (a : BackendResponse) × (r.result ≡ some a))
      → Stops proxy_to_vllm s
          (after_retries client host loads config loading log_id proxy_to_vllm to_server s r w g).0
  unfolding after_retries
  after_retries-Stops s r w g h = elim (Bool-cases r.success) [
    | inl e ↦ rw (e, (h e).1) tt
    | inr e ↦ rw e tt
  ]

  after_first-Stops :
      (s : OllamaServer) (w : W) (g : Gateway W) (r : Result BackendResponse)
      → Stops proxy_to_vllm s
          (after_first client host loads config loading log_id proxy_to_vllm to_server s r w g).0
  unfolding after_first
  after_first-Stops s w g (ok a) = tt
  after_first-Stops s w g (err e) = after_retries-Stops s _ _ _ (λ yes.
      ((retry_with_backoff-IsTally host (send_backend_request client (to_server s)) config loading
          w).on_success
        yes).1)

  pub try_server-Stops :
      (s : OllamaServer) (g : Gateway W)
      → Stops proxy_to_vllm s
          (try_server client host loads config loading log_id proxy_to_vllm to_server s g).0
  unfolding try_server
  try_server-Stops s g = elim (Bool-cases (str_eq s.server_type "vllm")) [
    | inl v ↦ rw v (after_vllm-Stops s g.world _ g _ v refl)
    | inr v ↦ rw v (after_first-Stops s _ g _)
  ]
