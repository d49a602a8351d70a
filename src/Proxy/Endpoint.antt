-- ===== src/Proxy/Endpoint.antt =====
-- app/api/v1/routes/proxy.py: `proxy_ollama`, the route that joins the parts: the blocked endpoints, the
-- parameter think, the choice of a model, the servers that have it, the usage log, the check for a cold
-- start and `_reverse_proxy`. The tasks that the code only schedules are run where it schedules them. A
-- truthy name of a model that is no text ends in the TypeError of get_servers_with_model.
pub mod Named
use ollama_proxy_server.Prelude.{
  ℕ, ◌+◌, Bool, true, false, not, Option, none, some, List, [], ◌∷◌, map, String, http, type_error,
  Result, ok, err, ℤ, pos, Exec, continue, pure, lift, str_eq, append, is_nil, is_empty, any, Dict,
  ◌==◌, if◌then◌else◌,
}
use ollama_proxy_server.Exec.{◌>>=◌, ◌>>◌}
use ollama_proxy_server.Json.{Json, null, str, obj, Fields, end, put, truthy}
use ollama_proxy_server.Retry.{Host, RetryConfig}
use ollama_proxy_server.Usage.{UsageLog}
use ollama_proxy_server.Servers.{
  ModelServer, DummyServer, get_servers_with_model, get_all_available_model_names, no_filter,
}
use ollama_proxy_server.Servers.Http.{HttpClient}
use ollama_proxy_server.Servers.Running.{ServerRow, RunningModel, get_active_models_all_servers}
use ollama_proxy_server.Proxy.Tracking.{has_log}
use ollama_proxy_server.Proxy.AutoModel.{ModelMetadata, select_auto_model}
use ollama_proxy_server.Proxy.Backend.{OllamaServer, Client, get_active_servers, BackendResponse}
use ollama_proxy_server.Proxy.Request.{check_path, read_body, handle_think, async_log_usage}
use ollama_proxy_server.Proxy.Routing.{
  Gateway, Answer, wrapped, copied, as_is, of_vllm, Incoming, reverse_proxy,
}
use ollama_proxy_server.Vllm.{Python, is_text}
use ollama_proxy_server.Vllm.Route.{VllmClient}
use ollama_proxy_server.Vllm.Failover.{serve_vllm}

-- The state of the application: the gateway with the world, the usage log and its next id
pub record App (W : Type 0) : Type 0 where
  pub gateway : Gateway W
  pub logs : List UsageLog
  pub next_id : ℕ

-- What the route gets from its dependencies and the database
pub record Setting (W : Type 0) : Type 0 where
  pub py : Python
  pub client : Client W
  pub http_client : HttpClient W
  pub vllm_client : VllmClient W
  pub host : Host W
  pub config : RetryConfig
  pub blocked_ollama_endpoints : String
  pub api_key_id : ℕ
  pub rows : List ServerRow
  pub all_metadata : List ModelMetadata

-- `json.loads`, where every exception is caught
abbrev pub loads_or_none : Python → String → Option Json
loads_or_none py text = elim (py.loads text) [ ok value ↦ some value | err e ↦ none ]

abbrev pub model_server : ServerRow → ModelServer
model_server row = record {
  name = row.server.name;
  is_active = row.server.is_active;
  available_models = row.available_models;
}

-- A server that is made up has no id; 0 stands for that.
abbrev dummy_server : DummyServer → OllamaServer
dummy_server dummy = record {
  id = 0;
  name = dummy.name;
  url = dummy.url;
  server_type = dummy.server_type;
  is_active = true;
  encrypted_api_key = none;
}

abbrev is_trackable : String → Bool
is_trackable path = any (str_eq path) ("generate" ∷ "chat" ∷ "embeddings" ∷ [])

abbrev name_of_model : Json → Option String
name_of_model (str s) = some s
name_of_model other = none

abbrev pub status_of : Answer → ℕ
status_of (wrapped response) = response.status_code
status_of (copied response tokens) = response.status_code
status_of (as_is response) = response.status_code
status_of (of_vllm answer) = 200

-- The request behind the statements on think and auto: the body's text and the model's name
pub record Prepared : Type 0 where
  pub body_bytes : String
  pub model_name : Json

module _ {W : Type 0} (setting : Setting W) where
  -- `_select_auto_model` and its answer put into the body
  chosen : Fields → Option String → Result Prepared
  chosen body none = err (http 503 "Auto-routing could not find an available and suitable model.")
  chosen body (some name) =
      if is_nil name
      then err (http 503 "Auto-routing could not find an available and suitable model.")
      else ok (record {
        body_bytes = setting.py.dumps (obj (put "model" (str name) body));
        model_name = str name;
      })

  auto_of : Json → Fields × String → Result Prepared
  unfolding chosen
  auto_of model_name (body, body_bytes) =
      if is_text "auto" model_name
      then elim (select_auto_model setting.all_metadata
          (get_all_available_model_names (loads_or_none setting.py) no_filter
            (map model_server setting.rows))
          body) [ ok name ↦ chosen body name | err e ↦ err e ]
      else ok (record { body_bytes = body_bytes; model_name = model_name })

  unfoldable pub prepare : String → Json × Json → Result Prepared
  unfolding auto_of
  prepare body_bytes (obj body, model_name) =
      elim (handle_think setting.py.dumps model_name body body_bytes) [
        | ok thought ↦ auto_of model_name thought
        | err e ↦ err e
      ]
  prepare body_bytes (other, model_name) =
      ok (record { body_bytes = body_bytes; model_name = model_name })

  made_up : Result (List DummyServer) → Result (List OllamaServer)
  made_up (ok dummies) = ok (map dummy_server dummies)
  made_up (err e) = err e

  -- the servers that have the model, none where the request names none
  unfoldable pub servers_with_model : Json → Result (List OllamaServer)
  unfolding made_up
  servers_with_model (str name) =
      made_up
        (get_servers_with_model (loads_or_none setting.py) name (map model_server setting.rows))
  servers_with_model other = if truthy other then err (type_error "object has no len()") else ok []

  log_usage : String → ℤ → Option ℕ → Json → Exec (App W) (Option ℕ)
  log_usage path status_code server_id model_name app =
      let (log_id, logs) =
        async_log_usage app.next_id (pos setting.api_key_id) (append "/api/" path) status_code
          server_id (name_of_model model_name) none none none app.logs in
      (ok log_id, record app { logs = logs; next_id = app.next_id + 1 })

  -- the entry for an endpoint whose tokens are tracked
  first_log : String → Json → Exec (App W) (Option ℕ)
  unfolding log_usage
  first_log path model_name =
      if is_trackable path then log_usage path (pos 200) none model_name else pure none

  -- `is_cold_start`: the model is not among those that run
  cold_start : Json → Exec (App W) Bool
  cold_start model_name app =
      let (active_models, w) =
        get_active_models_all_servers setting.py setting.http_client setting.rows
          app.gateway.world in
      if truthy model_name
      then continue active_models
          (λ models s. (ok (not (any (λ m. is_text m.name model_name) models)), s))
          (record app { gateway = record app.gateway { world = w } })
      else (ok false, app)

  forward : Incoming → List OllamaServer → Option ℕ → Bool → Exec (App W) (Answer × OllamaServer)
  forward request candidates log_id is_cold_start app =
      let (r, gateway) =
        reverse_proxy setting.client setting.host (loads_or_none setting.py)
          (serve_vllm setting.py setting.vllm_client log_id request.path request.body_bytes)
          setting.config is_cold_start log_id request candidates app.gateway in
      (r, record app { gateway = gateway })

  -- `update(UsageLog).where(UsageLog.id == log_id).values(server_id=…)`
  set_server : Option ℕ → ℕ → List UsageLog → List UsageLog
  set_server none server_id logs = logs
  set_server (some log_id) server_id logs =
      map
        (λ entry. if entry.id == log_id then record entry { server_id = some server_id } else entry)
        logs

  -- the statements behind `_reverse_proxy`
  last_log : String → Json → Option ℕ → Answer × OllamaServer → Exec (App W) Answer
  unfolding log_usage set_server
  last_log path model_name log_id (answer, chosen_server) app =
      let app' =
        if has_log log_id
        then record app { logs = set_server log_id chosen_server.id app.logs }
        else app in
      let (_, logged) =
        log_usage path (pos (status_of answer)) (some chosen_server.id) model_name app' in
      (ok answer, if is_trackable path then app' else logged)

  with_candidates : Incoming → Json → List OllamaServer → Exec (App W) Answer
  unfolding first_log cold_start forward last_log
  with_candidates request model_name candidates = do
    log_id ← first_log request.path model_name
    is_cold_start ← cold_start model_name
    served ← forward request candidates log_id is_cold_start
    last_log request.path model_name log_id served

  -- the request with the servers that are active, and those that have the model
  unfoldable pub serve :
      Incoming → Json → List OllamaServer → List OllamaServer → Exec (App W) Answer
  unfolding with_candidates
  serve request model_name servers with_model =
      let candidate_servers = if is_empty with_model then servers else with_model in
      if is_empty candidate_servers
      then lift (err (http 503 "No servers available for the model."))
      else with_candidates request model_name candidate_servers

  unfoldable pub proxy_ollama : Incoming → Exec (App W) Answer
  unfolding prepare serve
  proxy_ollama request = do
    servers ← lift (get_active_servers (map (λ row. row.server) setting.rows))
    path ← lift (check_path setting.blocked_ollama_endpoints request.path)
    prepared ←
        lift (prepare request.body_bytes (read_body (loads_or_none setting.py) request.body_bytes))
    with_model ← lift (servers_with_model prepared.model_name)
    serve (record request { body_bytes = prepared.body_bytes }) prepared.model_name servers
        with_model
