-- ===== src/Proxy/Routing.antt =====
-- app/api/v1/routes/proxy.py: `_reverse_proxy`, the choice of a server, the failover to the next one
-- and the token counts of an answer that is no stream. The world is the clock and sleep of
-- `core/retry.py` and the HTTP client; the module's cache and the application's round-robin index are
-- a `Gateway` around it. `_proxy_to_vllm` is an argument.
pub mod Candidates
pub mod Attempts
pub mod Failover
use ollama_proxy_server.Prelude.{
  ℕ, zero, suc, ◌+◌, ◌%◌, max, ◌≡◌, Bool, true, false, not, ◌&&◌, Option, none, some, List, [], ◌∷◌,
  ◌++◌, map, String, Error, http, other_error, attribute_error, Result, ok, err, Exec, str_eq, ◌==◌,
  append, join, is_nil, is_empty, length, filter, any, lower, Dict, get_elem?, if◌then◌else◌,
}
use ollama_proxy_server.Json.{Json, is_null}
use ollama_proxy_server.Retry.{Host, RetryConfig, RetryResult, retry_with_backoff, post_init}
use ollama_proxy_server.Proxy.Tokens.{Tokens, extract_tokens_from_chunk}
use ollama_proxy_server.Proxy.Tracking.{Chunk, utf8, undecodable, has_log}
use ollama_proxy_server.Proxy.Backend.{
  OllamaServer, HealthCache, is_server_healthy_cached, update_health_cache, BackendRequest,
  BackendResponse, Client, backend_request, send_backend_request, is_streaming_response,
}
use ollama_proxy_server.Vllm.Route.{VllmAnswer}

pub record Gateway (W : Type 0) : Type 0 where
  pub health_cache : HealthCache
  pub backend_server_index : Option ℕ
  pub world : W

-- What the caller gets: the stream wrapped for tracking, a response with the body that was read and
-- the token counts that are written for it, or the response of the backend as it is, or what the adapter for vLLM makes.
pub data Answer : Type 0 where
  wrapped : BackendResponse → Answer
  copied : BackendResponse → Option Tokens → Answer
  as_is : BackendResponse → Answer
  of_vllm : VllmAnswer → Answer

-- How the attempt at one server ends: with an answer, with an error that ends the request, or with a
-- failure, behind which the next server is tried.
pub data Attempt : Type 0 where
  answered : Answer → Attempt
  aborted : Error → Attempt
  failed : Attempt

-- The answer to a request that no server could serve
unfoldable pub all_unavailable : List String → Error
all_unavailable servers_tried =
    http 504 (append "All backend servers unavailable. Tried: " (join ", " servers_tried))

-- `candidate_servers`: the active servers that the cache does not hold for unhealthy, or else the
-- active ones
unfoldable pub candidate_servers : ℕ → HealthCache → List OllamaServer → List OllamaServer
candidate_servers now cache servers =
    let healthy = filter (λ s. s.is_active && is_server_healthy_cached now cache s.id) servers in
    if is_empty healthy then filter (λ s. s.is_active) servers else healthy

-- `[s for s in candidate_servers if s.id != chosen_server.id]`
unfoldable pub without : OllamaServer → List OllamaServer → List OllamaServer
without chosen_server candidates = filter (λ s. not (s.id == chosen_server.id)) candidates

-- The headers that `_reverse_proxy` passes on
unfoldable pub proxy_headers : Dict String → Dict String
proxy_headers headers =
    filter
      (λ kv. not (
        any (λ h. str_eq h (lower kv.0))
          ("host" ∷ "connection" ∷ "keep-alive" ∷ "proxy-authenticate" ∷ "proxy-authorization"
            ∷ "te" ∷ "trailers" ∷ "transfer-encoding" ∷ "upgrade" ∷ "content-length" ∷ [])))
      headers

module _ (loads : String → Option Json) (log_id : Option ℕ) where
  -- the counts of a body, where it is read; `none` is an exception, behind which the answer stays as
  -- it is
  body_tokens : Result Chunk → Option (Option Tokens)
  body_tokens (err e) = none
  body_tokens (ok (undecodable bytes)) = none
  body_tokens (ok (utf8 text)) = if is_nil text then some none else counted (loads text)
    where
      reported : Result Tokens → Option (Option Tokens)
      reported (err e) = none
      reported (ok tokens) =
          if is_null tokens.total_tokens && is_null tokens.prompt_tokens
          then some none
          else some (some tokens)

      counted : Option Json → Option (Option Tokens)
      counted none = none
      counted (some chunk) = reported (extract_tokens_from_chunk chunk)

  -- the statements behind a response, the same on the first attempt and behind the retries
  unfoldable pub answer_of : BackendResponse → Answer
  unfolding body_tokens
  answer_of response =
      if is_streaming_response response && has_log log_id
      then wrapped response
      else if has_log log_id && response.status_code == 200
      then elim (body_tokens response.body) [
        | none ↦ as_is response
        | some tokens ↦ copied response tokens
      ]
      else as_is response

-- `backend_server_index`, which is 0 where the application has none yet
abbrev pub round_robin_index : Option ℕ → ℕ
round_robin_index none = 0
round_robin_index (some i) = i

-- The rest of the loop, from an index, the candidates that are left and the names that were tried
abbrev pub Round : Type 0 → Type 0
Round W = ℕ → List OllamaServer → List String → Exec (Gateway W) (Answer × OllamaServer)

module _ {W : Type 0} (client : Client W) (host : Host W) (loads : String → Option Json)
    (config : RetryConfig) (is_loading_operation : Bool) (log_id : Option ℕ)
    (proxy_to_vllm : OllamaServer → Exec W Answer) (to_server : OllamaServer → BackendRequest) where
  unfoldable pub mark : OllamaServer → Bool → HealthCache → W → Gateway W → Gateway W
  mark server healthy cache w gateway = record gateway {
    health_cache = update_health_cache (host.clock w) server.id healthy cache;
    world = w;
  }

  unfoldable pub after_vllm : OllamaServer → Result Answer → W → Gateway W → Attempt × Gateway W
  after_vllm server (ok answer) w gateway =
      (answered answer, mark server true gateway.health_cache w gateway)
  after_vllm server (err (http status detail)) w gateway =
      (aborted (http status detail), mark server false gateway.health_cache w gateway)
  after_vllm server (err e) w gateway = (failed, mark server false gateway.health_cache w gateway)

  after_retries : OllamaServer → RetryResult BackendResponse → W → Gateway W → Attempt × Gateway W
  after_retries server retry_result w gateway =
      if retry_result.success
      then elim retry_result.result [
        | some response ↦ (
          answered (answer_of loads log_id response),
          mark server true gateway.health_cache w gateway,
        )
        | none ↦
            (aborted (attribute_error "headers"), mark server true gateway.health_cache w gateway)
      ]
      else (failed, mark server false gateway.health_cache w gateway)

  after_first : OllamaServer → Result BackendResponse → W → Gateway W → Attempt × Gateway W
  after_first server (ok response) w gateway =
      (answered (answer_of loads log_id response), mark server true gateway.health_cache w gateway)
  after_first server (err first_error) w gateway =
      let marked = mark server false gateway.health_cache w gateway in
      let (retry_result, w') =
        retry_with_backoff host (send_backend_request client (to_server server)) config
          is_loading_operation w in
      after_retries server retry_result w' marked

  -- one round of the loop, for the chosen server
  unfoldable pub try_server : OllamaServer → Gateway W → Attempt × Gateway W
  unfolding after_vllm after_first after_retries
  try_server server gateway =
      let vllm = proxy_to_vllm server gateway.world in
      let first = send_backend_request client (to_server server) gateway.world in
      if str_eq server.server_type "vllm"
      then after_vllm server vllm.0 vllm.1 gateway
      else after_first server first.0 first.1 gateway

  -- what follows an attempt; `next` is the rest of the loop
  unfoldable pub after_attempt :
      Round W
      → ℕ
      → OllamaServer
      → List OllamaServer
      → List String
      → Attempt × Gateway W
      → Result (Answer × OllamaServer) × Gateway W
  after_attempt next safe_index chosen candidates tried (answered answer, gateway) =
      (ok (answer, chosen), gateway)
  after_attempt next safe_index chosen candidates tried (aborted e, gateway) = (err e, gateway)
  after_attempt next safe_index chosen candidates tried (failed, gateway) =
      let left = without chosen candidates in
      if is_empty left
      then (err (all_unavailable tried), gateway)
      else next (safe_index % max 1 (length left)) left tried gateway

  unfoldable pub choose : Round W → ℕ → Option OllamaServer → Round W
  choose next safe_index none index candidates tried gateway =
      (err (other_error "IndexError"), gateway)
  choose next safe_index (some chosen) index candidates tried gateway =
      after_attempt next safe_index chosen candidates (tried ++ chosen.name ∷ [])
        (try_server chosen gateway)

  -- `for server_attempt in range(len(candidate_servers))`, by the number of rounds that are left
  unfoldable pub failover : ℕ → ℕ → Round W
  failover zero server_attempt index candidates tried gateway =
      (err (all_unavailable tried), gateway)
  failover (suc left) server_attempt index candidates tried gateway =
      let safe_index = (index + server_attempt) % length candidates in
      choose (failover left (server_attempt + 1)) safe_index (get_elem? candidates safe_index) index
        candidates tried gateway

  -- the statements behind the configuration and the headers
  unfoldable pub route : List OllamaServer → Exec (Gateway W) (Answer × OllamaServer)
  route servers gateway =
      let candidates = candidate_servers (host.clock gateway.world) gateway.health_cache servers in
      let n = max 1 (length candidates) in
      let current_index = round_robin_index gateway.backend_server_index % n in
      if is_empty candidates
      then (err (http 503 "No active backend servers available."), gateway)
      else failover (length candidates) 0 current_index candidates []
          (record gateway { backend_server_index = some ((current_index + 1) % n) })

-- What `_reverse_proxy` takes from the request
pub record Incoming : Type 0 where
  pub method : String
  pub path : String
  pub headers : Dict String
  pub query_params : Dict String
  pub body_bytes : String

-- What `_send_backend_request` builds from it for a server
unfoldable pub request_to : {W : Type 0} → Client W → Incoming → OllamaServer → BackendRequest
request_to client request server =
    backend_request client server request.path request.method (proxy_headers request.headers)
      request.query_params request.body_bytes

module _ {W : Type 0} (client : Client W) (host : Host W) (loads : String → Option Json)
    (proxy_to_vllm : OllamaServer → Exec W Answer) where
  unfoldable pub with_config :
      Result RetryConfig
      → Bool
      → Option ℕ
      → Incoming
      → List OllamaServer
      → Exec (Gateway W) (Answer × OllamaServer)
  with_config (err e) is_loading_operation log_id request servers gateway = (err e, gateway)
  with_config (ok retry_config) is_loading_operation log_id request servers gateway =
      route client host loads retry_config is_loading_operation log_id proxy_to_vllm
        (request_to client request) servers gateway

  unfoldable pub reverse_proxy :
      RetryConfig
      → Bool
      → Option ℕ
      → Incoming
      → List OllamaServer
      → Exec (Gateway W) (Answer × OllamaServer)
  reverse_proxy config is_loading_operation log_id request servers gateway =
      with_config (post_init config) is_loading_operation log_id request servers gateway
