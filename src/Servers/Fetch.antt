-- ===== src/Servers/Fetch.antt =====
-- app/crud/server_crud.py: `fetch_and_update_models` and `refresh_all_server_models`. The table is a
-- list of rows; the time of the last update is left out. Both HTTPStatusError and RequestError are
-- HTTPErrors.
use ollama_proxy_server.Prelude.{
  ℕ, ◌+◌, Bool, true, false, Option, none, some, List, [], ◌∷◌, map, String, Error,
  http_status_error, request_error, Result, ok, err, str_eq, append, ◌==◌, length, take_chars,
  rstrip_slash, filter, if◌then◌else◌,
}
use ollama_proxy_server.Raises.{◌>>=◌}
use ollama_proxy_server.Json.{Json, null}
use ollama_proxy_server.Json.Dynamic.{array}
use ollama_proxy_server.Proxy.Backend.{OllamaServer}
use ollama_proxy_server.Servers.Http.{HttpResponse, HttpClient, get_auth_headers}
use ollama_proxy_server.Vllm.{Python}
use ollama_proxy_server.Servers.Entries.{read_models}

-- A row of the table
pub record StoredServer : Type 0 where
  pub server : OllamaServer
  pub available_models : Json
  pub last_error : Option String

pub record FetchResult : Type 0 where
  pub success : Bool
  pub models : List Json
  pub error : Option String

module _ {W : Type 0} (py : Python) (client : HttpClient W) where
  read_response : Bool → HttpResponse → Result (List Json)
  read_response is_vllm response =
      if client.is_success response.status_code
      then py.loads response.text >>= read_models py is_vllm
      else err (http_status_error response.status_code response.text)

  -- the request for the models of a server
  unfoldable pub fetch_models : OllamaServer → W → Result (List Json) × W
  unfolding read_response
  fetch_models server w =
      let is_vllm = str_eq server.server_type "vllm" in
      let (r, w') =
        client.request
          (record {
            method = "GET";
            url = append (rstrip_slash server.url) (if is_vllm then "/v1/models" else "/api/tags");
            headers = get_auth_headers client server.encrypted_api_key;
            payload = none;
          })
          w in
      (r >>= read_response is_vllm, w')

  error_message : Error → String
  error_message (http_status_error status text) =
      take_chars 512 (append "HTTP error: " (client.show_error (http_status_error status text)))
  error_message (request_error message) =
      take_chars 512 (append "HTTP error: " (client.show_error (request_error message)))
  error_message e = take_chars 512 (append "Unexpected error: " (client.show_error e))

  failure : String → FetchResult
  failure message = record { success = false; models = []; error = some message }

  -- what becomes of the row
  unfoldable pub store_models : StoredServer → Result (List Json) → FetchResult × StoredServer
  unfolding error_message failure
  store_models stored (ok models) = (
    record { success = true; models = models; error = none },
    record stored { available_models = array models; last_error = none },
  )
  store_models stored (err e) = (
    failure (error_message e),
    record stored { available_models = null; last_error = some (error_message e) },
  )

  unfoldable pub update_stored : StoredServer → W → FetchResult × (StoredServer × W)
  unfolding failure
  update_stored stored w =
      let blocked = append "URL " (append stored.server.url " is blocked for security reasons") in
      let (fetched, w') = fetch_models stored.server w in
      let (result, stored') = store_models stored fetched in
      if client.is_safe_url stored.server.url w
      then (result, (stored', w'))
      else (failure blocked, (record stored { last_error = some blocked }, w))

  unfoldable pub fetch_and_update_models :
      ℕ → List StoredServer → W → FetchResult × (List StoredServer × W)
  unfolding failure
  fetch_and_update_models server_id [] w = (failure "Server not found", ([], w))
  fetch_and_update_models server_id (stored ∷ table) w =
      let (here, (stored', w')) = update_stored stored w in
      let (later, (table', w'')) = fetch_and_update_models server_id table w in
      if stored.server.id == server_id
      then (here, (stored' ∷ table, w'))
      else (later, (stored ∷ table', w''))

-- `results`, without the texts of the errors
pub record Refreshed : Type 0 where
  pub total : ℕ
  pub success : ℕ
  pub failed : ℕ

module _ {W : Type 0} (py : Python) (client : HttpClient W) where
  refresh_each : List ℕ → Refreshed → List StoredServer → W → Refreshed × (List StoredServer × W)
  refresh_each [] results table w = (results, (table, w))
  refresh_each (server_id ∷ ids) results table w =
      let (result, (table', w')) = fetch_and_update_models py client server_id table w in
      refresh_each ids
        (if result.success
          then record results { success = results.success + 1 }
          else record results { failed = results.failed + 1 })
        table' w'

  unfoldable pub refresh_all_server_models :
      List StoredServer → W → Refreshed × (List StoredServer × W)
  unfolding refresh_each
  refresh_all_server_models table w =
      let ids = map (λ s. s.server.id) (filter (λ s. s.server.is_active) table) in
      refresh_each ids (record { total = length ids; success = 0; failed = 0 }) table w
