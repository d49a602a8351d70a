-- ===== src/Vllm/Failover.antt =====
-- What a failure of a vLLM backend means for `_reverse_proxy`: once the request is translated, every
-- failure is an HTTPException, which ends the request, so that no other server is tried.
use ollama_proxy_server.Prelude.{
  ℕ, ◌≡◌, inl, inr, Bool, true, false, Option, String, Error, http, Result, ok, err, Exec, continue,
  str_eq, Bool-cases,
}
use ollama_proxy_server.Json.{Json, obj, Fields, bool, find, truthy}
use ollama_proxy_server.Json.Dynamic.{or_else}
use ollama_proxy_server.Retry.{Host, RetryConfig}
use ollama_proxy_server.Proxy.Backend.{OllamaServer, Client, BackendRequest}
use ollama_proxy_server.Proxy.Routing.{
  Answer, of_vllm, Attempt, answered, aborted, Gateway, after_vllm, try_server,
}
use ollama_proxy_server.Vllm.{Python}
use ollama_proxy_server.Vllm.Route.{
  VllmRequest, VllmAnswer, VllmClient, payload_of, parse_payload, vllm_request, as_http, ask_vllm,
  proxy_to_vllm,
}

-- The result of code that answers or raises an HTTPException
abbrev pub IsHttpResult : {A : Type 0} → Result A → Type 0
IsHttpResult (ok a) = Unit
IsHttpResult (err (http status detail)) = Unit
IsHttpResult (err e) = ⊥

module _ {W : Type 0} (py : Python) (client : VllmClient W) (log_id : Option ℕ)
    (server : OllamaServer) where
  as_http-IsHttpResult :
      (result : Result VllmAnswer) → IsHttpResult (as_http py client log_id server result)
  unfolding as_http
  as_http-IsHttpResult (ok answer) = tt
  as_http-IsHttpResult (err (Error.http_status_error status text)) = tt
  as_http-IsHttpResult (err e) = tt

  ask_vllm-IsHttpResult :
      (path : String) (model_name : Json) (request : VllmRequest) (w : W)
      → IsHttpResult (ask_vllm py client log_id server path model_name request w).0
  unfolding ask_vllm
  ask_vllm-IsHttpResult path model_name request w =
      elim (Bool-cases (truthy (or_else (bool false) (find "stream" request.payload)))) [
        | inl e ↦ rw e tt
        | inr e ↦ rw e (as_http-IsHttpResult _)
      ]

  proxy_to_vllm-IsHttpResult :
      (path body_bytes : String) (fields : Fields) (request : VllmRequest) (w : W)
      → parse_payload py client log_id server body_bytes ≡ ok (obj fields)
      → vllm_request py client log_id server path fields ≡ ok request
      → IsHttpResult (proxy_to_vllm py client log_id server path body_bytes w).0
  unfolding proxy_to_vllm payload_of
  proxy_to_vllm-IsHttpResult path body_bytes fields request w parsed translated =
      rw (parsed, translated) (ask_vllm-IsHttpResult path _ request w)

-- The attempt is the last one, since it has an answer or ends in an HTTPException.
abbrev pub IsFinal : Attempt → Type 0
IsFinal (answered answer) = Unit
IsFinal (aborted (http status detail)) = Unit
IsFinal other = ⊥

as_answer : {W : Type 0} → Exec W VllmAnswer → Exec W Answer
as_answer ask w = continue (ask w).0 (λ answer w'. (ok (of_vllm answer), w')) (ask w).1

-- `_proxy_to_vllm` as `_reverse_proxy` calls it
unfoldable pub serve_vllm :
    {W : Type 0} → Python → VllmClient W → Option ℕ → String → String → OllamaServer → Exec W Answer
unfolding as_answer
serve_vllm py client log_id path body_bytes server =
    as_answer (proxy_to_vllm py client log_id server path body_bytes)

module _ {W : Type 0} (py : Python) (vllm_client : VllmClient W) (client : Client W) (host : Host W)
    (loads : String → Option Json) (config : RetryConfig) (is_loading_operation : Bool)
    (log_id : Option ℕ) (to_server : OllamaServer → BackendRequest) where
  after_vllm-IsFinal :
      (path body_bytes : String) (server : OllamaServer) (result : Result VllmAnswer) (w v : W)
      (gateway : Gateway W)
      → IsHttpResult result
      → IsFinal
          (after_vllm client host loads config is_loading_operation log_id
            (serve_vllm py vllm_client log_id path body_bytes)
            to_server
            server
            (continue result (λ answer w'. (ok (of_vllm answer), w')) w).0
            v
            gateway).0
  unfolding after_vllm
  after_vllm-IsFinal path body_bytes server (ok answer) w v gateway h = tt
  after_vllm-IsFinal path body_bytes server (err (http status detail)) w v gateway h = tt
  after_vllm-IsFinal path body_bytes server (err e) w v gateway h = absurd h

  -- Where the body is an object and its request for vLLM can be built, the attempt at a vLLM server is
  -- the last: it has an answer, or an HTTPException ends the whole request. No failure of such a
  -- server, not even one of the connection, makes the proxy go on to another server.
  pub try_vllm-IsFinal :
      (path body_bytes : String) (server : OllamaServer) (gateway : Gateway W) (fields : Fields)
      (request : VllmRequest)
      → str_eq server.server_type "vllm" ≡ true
      → parse_payload py vllm_client log_id server body_bytes ≡ ok (obj fields)
      → vllm_request py vllm_client log_id server path fields ≡ ok request
      → IsFinal
          (try_server client host loads config is_loading_operation log_id
            (serve_vllm py vllm_client log_id path body_bytes)
            to_server
            server
            gateway).0
  unfolding try_server serve_vllm as_answer
  try_vllm-IsFinal path body_bytes server gateway fields request is_vllm parsed translated =
      rw is_vllm (
        after_vllm-IsFinal path body_bytes server
          (proxy_to_vllm py vllm_client log_id server path body_bytes gateway.world).0 _ _ gateway
          (proxy_to_vllm-IsHttpResult py vllm_client log_id server path body_bytes fields request
            gateway.world parsed translated))
