-- ===== src/Proxy/Backend.antt =====
-- app/api/v1/routes/proxy.py: the health cache, `get_active_servers`, `_send_backend_request` and
-- `_is_streaming_response`. The HTTP client and the key's decryption are a `Client` over a state `W`
-- of the world. A body is a text, whose length in bytes the client writes, since it goes out as bytes.
pub mod Headers
use ollama_proxy_server.Prelude.{
  ℕ, zero, suc, ◌+◌, ◌-◌, ◌/◌, ◌%◌, ◌≡◌, Bool, true, false, not, ◌&&◌, ◌||◌, Option, none, some,
  List, [], ◌∷◌, String, Error, http, other_error, Result, ok, err, Exec, continue, str_eq, ltb,
  leb, ◌==◌, lower, contains, append, is_nil, is_empty, filter, any, rstrip_slash, Dict, insert,
  lookup, get_elem?, if◌then◌else◌,
}
use ollama_proxy_server.Proxy.Tracking.{Chunk}

pub record OllamaServer : Type 0 where
  pub id : ℕ
  pub name : String
  pub url : String
  pub server_type : String
  pub is_active : Bool
  pub encrypted_api_key : Option String

pub record HealthEntry : Type 0 where
  pub timestamp : ℕ
  pub healthy : Bool

abbrev pub HealthCache : Type 0
HealthCache = List (ℕ × HealthEntry)

-- `_server_health_cache.get(server_id)`
unfoldable pub cache_entry : ℕ → HealthCache → Option HealthEntry
cache_entry server_id [] = none
cache_entry server_id ((i, entry) ∷ cache) =
    if i == server_id then some entry else cache_entry server_id cache

-- five seconds, in microseconds
abbrev pub health_cache_ttl : ℕ
health_cache_ttl = 5000000

-- `_is_server_healthy_cached`, at a time. An entry of a later time is as fresh as one of now.
unfoldable pub is_server_healthy_cached : ℕ → HealthCache → ℕ → Bool
is_server_healthy_cached now cache server_id = elim (cache_entry server_id cache) [
  | some entry ↦ if ltb (now - entry.timestamp) health_cache_ttl then entry.healthy else true
  | none ↦ true
]

-- `_update_health_cache`
unfoldable pub update_health_cache : ℕ → ℕ → Bool → HealthCache → HealthCache
update_health_cache now server_id healthy [] =
    (server_id, record { timestamp = now; healthy = healthy }) ∷ []
update_health_cache now server_id healthy ((i, entry) ∷ cache) =
    if i == server_id
    then (i, record { timestamp = now; healthy = healthy }) ∷ cache
    else (i, entry) ∷ update_health_cache now server_id healthy cache

unfoldable pub get_active_servers : List OllamaServer → Result (List OllamaServer)
get_active_servers servers =
    let active_servers = filter (λ s. s.is_active) servers in
    if is_empty active_servers
    then err (http 503 "No active backend servers available.")
    else ok active_servers

pub record BackendRequest : Type 0 where
  pub method : String
  pub url : String
  pub headers : Dict String
  pub params : Dict String
  pub content : String

-- The body is what `aread` gives: bytes, or what it raises.
pub record BackendResponse : Type 0 where
  pub status_code : ℕ
  pub headers : Dict String
  pub body : Result Chunk

pub record Client (W : Type 0) : Type 0 where
  pub send : BackendRequest → Exec W BackendResponse
  pub aclose : BackendResponse → W → W
  pub decrypt_data : String → String
  pub content_length : String → String

hop_by_hop : List String
hop_by_hop =
    "host" ∷ "connection" ∷ "keep-alive" ∷ "proxy-authenticate" ∷ "proxy-authorization" ∷ "te"
    ∷ "trailers" ∷ "transfer-encoding" ∷ "upgrade" ∷ "x-forwarded-for" ∷ "x-forwarded-host"
    ∷ "x-forwarded-proto" ∷ "x-real-ip" ∷ "cookie" ∷ "authorization" ∷ []

-- The header is not passed on to a backend.
unfoldable pub is_dropped : String → Bool
unfolding hop_by_hop
is_dropped k =
    let k_lower = lower k in
    any (λ h. str_eq h k_lower) hop_by_hop || str_eq k_lower "content-length"

unfoldable pub keep_headers : Dict String → Dict String → Dict String
keep_headers [] request_headers = request_headers
keep_headers ((k, v) ∷ headers) request_headers =
    keep_headers headers (if is_dropped k then request_headers else insert k v request_headers)

module _ {W : Type 0} (client : Client W) where
  -- `if server.encrypted_api_key` and `if api_key`
  unfoldable pub authorize : Option String → Dict String → Dict String
  authorize none request_headers = request_headers
  authorize (some encrypted) request_headers =
      let api_key = client.decrypt_data encrypted in
      if is_nil encrypted || is_nil api_key
      then request_headers
      else insert "authorization" (append "Bearer " api_key) request_headers

  -- The request that goes to a server
  unfoldable pub backend_request :
      OllamaServer → String → String → Dict String → Dict String → String → BackendRequest
  backend_request server path method headers query_params body_bytes =
      let kept = keep_headers headers [] in
      let sized =
        if is_nil body_bytes
        then kept
        else insert "content-length" (client.content_length body_bytes) kept in
      record {
        method = method;
        url = append (rstrip_slash server.url) (append "/api/" path);
        headers = authorize server.encrypted_api_key sized;
        params = query_params;
        content = body_bytes;
      }

  -- A status from 500 on is an exception, and the response is closed.
  unfoldable pub check_status : BackendResponse → Exec W BackendResponse
  check_status response w =
      if leb 500 response.status_code
      then (err (other_error "Backend server returned an error"), client.aclose response w)
      else (ok response, w)

  unfoldable pub send_backend_request : BackendRequest → Exec W BackendResponse
  send_backend_request request w = let (r, w') = client.send request w in continue r check_status w'

-- `headers.get(k, "")`
header : String → Dict String → String
header k headers = elim (lookup k headers) [ none ↦ "" | some v ↦ v ]

-- `_is_streaming_response`
unfoldable pub is_streaming_response : BackendResponse → Bool
unfolding header
is_streaming_response response =
    let content_type = header "content-type" response.headers in
    contains "text/event-stream" content_type
    || contains "chunked" (lower (header "transfer-encoding" response.headers))
    || contains "application/x-ndjson" content_type
