-- ===== src/Servers/Running.antt =====
-- app/crud/server_crud.py: `get_active_models_all_servers` and `check_server_health`. The requests that
-- the code gathers run one after the other here; their results stand in the order of the servers.
use ollama_proxy_server.Prelude.{
  ℕ, Option, none, some, List, [], ◌∷◌, ◌++◌, map, String, http_status_error, request_error, Result,
  ok, err, Exec, str_eq, append, take, take_chars, rstrip_slash, filter, ℤ, pos, ◌==◌,
  if◌then◌else◌,
}
use ollama_proxy_server.Raises
use ollama_proxy_server.Json.{Json, str, arr, obj, nil, Fields, find, int, to_list}
use ollama_proxy_server.Json.Dynamic.{get_or, or_else, iterate, each}
use ollama_proxy_server.Proxy.Backend.{OllamaServer}
use ollama_proxy_server.Servers.Http.{HttpRequest, HttpResponse, HttpClient, get_auth_headers}
use ollama_proxy_server.Vllm.{Python, format}

-- A row of the table: what the routes read of it, and its list of models
pub record ServerRow : Type 0 where
  pub server : OllamaServer
  pub available_models : Json

pub record RunningModel : Type 0 where
  pub name : String
  pub server_name : String
  pub size : ℤ
  pub size_vram : ℤ
  pub expires_at : String

pub record Health : Type 0 where
  pub server_id : ℕ
  pub name : String
  pub url : String
  pub status : String
  pub reason : Option String

module _ (py : Python) where
  -- `str(model.get(key, default))`
  text_field : String → String → Fields → String
  text_field key default model = format py (or_else (str default) (find key model))

  -- `int(model.get(key, 0)) if str(model.get(key, "")).isdigit() else 0`
  int_field : String → Fields → Result ℤ
  unfolding text_field
  int_field key model =
      if py.is_digit (text_field key "" model)
      then py.int_of (or_else (int (pos 0)) (find key model))
      else ok (pos 0)

  -- a model that a server runs; what is no object is left out
  unfoldable pub running_model : OllamaServer → Json → Result (List RunningModel)
  unfolding text_field int_field
  running_model server (obj model) = Raises.◌>>=◌ (int_field "size" model) (λ size.
      Raises.◌>>=◌ (int_field "size_vram" model) (λ size_vram. ok (
        record {
          name = take_chars 256 (text_field "name" "" model);
          server_name = take_chars 128 server.name;
          size = size;
          size_vram = size_vram;
          expires_at = take_chars 64 (text_field "expires_at" "N/A" model);
        }
        ∷ [])))
  running_model server other = ok []

  concat_lists : List (List RunningModel) → List RunningModel
  concat_lists [] = []
  concat_lists (models ∷ rest) = models ++ concat_lists rest

  running_models : OllamaServer → Json → Result (List RunningModel)
  unfolding running_model concat_lists
  running_models server value = Raises.◌>>=◌ (get_or "models" (arr nil) value) (λ models.
      Raises.◌>>=◌ (iterate models) (λ items.
        Raises.◌>>=◌ (each (running_model server) items) (λ lists. ok (concat_lists lists))))

  or_empty : Result (List RunningModel) → List RunningModel
  or_empty (ok models) = models
  or_empty (err e) = []

  -- a model that a vLLM server has, which always runs
  vllm_model : OllamaServer → Json → Result (List RunningModel)
  unfolding text_field int_field
  vllm_model server (obj model) = Raises.◌>>=◌ (int_field "size" model) (λ size. ok (
      record {
        name = take_chars 256 (text_field "name" "" model);
        server_name = take_chars 128 server.name;
        size = size;
        size_vram = pos 1;
        expires_at = "N/A (Always Active)";
      }
      ∷ []))
  vllm_model server other = ok []

  vllm_models : ServerRow → Result (List RunningModel)
  unfolding vllm_model concat_lists
  vllm_models row = elim row.available_models [
    | arr models ↦
        Raises.◌>>=◌ (each (vllm_model row.server) (take 100 (to_list models)))
          (λ lists. ok (concat_lists lists))
    | other ↦ ok []
  ]

  module _ {W : Type 0} (client : HttpClient W) where
    get_request : OllamaServer → String → HttpRequest
    get_request server path = record {
      method = "GET";
      url = append (rstrip_slash server.url) path;
      headers = get_auth_headers client server.encrypted_api_key;
      payload = none;
    }

    read_ps : OllamaServer → HttpResponse → Result (List RunningModel)
    unfolding running_models
    read_ps server response =
        if client.is_success response.status_code
        then Raises.◌>>=◌ (py.loads response.text) (running_models server)
        else err (http_status_error response.status_code response.text)

    -- `fetch_ps`, whose exceptions all give an empty list
    unfoldable pub fetch_ps : OllamaServer → W → List RunningModel × W
    unfolding get_request read_ps or_empty
    fetch_ps server w =
        let (r, w') = client.request (get_request server "/api/ps") w in
        let safe = client.is_safe_url server.url w in
        (if safe then or_empty (Raises.◌>>=◌ r (read_ps server)) else [], if safe then w' else w)

    fetch_all : List OllamaServer → W → List RunningModel × W
    unfolding fetch_ps
    fetch_all [] w = ([], w)
    fetch_all (server ∷ servers) w =
        let (models, w') = fetch_ps server w in
        let (rest, w'') = fetch_all servers w' in (models ++ rest, w'')

    unfoldable pub get_active_models_all_servers : List ServerRow → Exec W (List RunningModel)
    unfolding fetch_all vllm_models concat_lists
    get_active_models_all_servers servers w =
        let active_servers = filter (λ s. s.server.is_active) servers in
        let ollama_servers = filter (λ s. str_eq s.server.server_type "ollama") active_servers in
        let vllm_servers = filter (λ s. str_eq s.server.server_type "vllm") active_servers in
        let (running, w') = fetch_all (map (λ s. s.server) ollama_servers) w in
        (
          Raises.◌>>=◌ (each vllm_models vllm_servers)
              (λ lists. ok (take 10000 (running ++ concat_lists lists))),
          w',
        )

    health : OllamaServer → String → Option String → Health
    health server status reason = record {
      server_id = server.id;
      name = take_chars 128 server.name;
      url = take_chars 256 server.url;
      status = status;
      reason = reason;
    }

    health_of : OllamaServer → Result HttpResponse → Health
    unfolding health
    health_of server (ok response) =
        if response.status_code == 200
        then health server "Online" none
        else health server "Offline"
            (some (append "Status " (client.show_status response.status_code)))
    health_of server (err (request_error message)) =
        health server "Offline" (some (take_chars 256 message))
    health_of server (err e) = health server "Offline" (some "Unexpected error")

    unfoldable pub check_server_health : OllamaServer → W → Health × W
    unfolding get_request health health_of
    check_server_health server w =
        let path = if str_eq server.server_type "vllm" then "/health" else "" in
        let (r, w') = client.request (get_request server path) w in
        let safe = client.is_safe_url server.url w in
        (
          if safe
              then health_of server r
              else health server "Blocked" (some "URL blocked for security"),
          if safe then w' else w,
        )

    unfoldable pub check_all_servers_health : List OllamaServer → W → List Health × W
    unfolding check_server_health
    check_all_servers_health [] w = ([], w)
    check_all_servers_health (server ∷ servers) w =
        let (first, w') = check_server_health server w in
        let (rest, w'') = check_all_servers_health servers w' in (first ∷ rest, w'')
