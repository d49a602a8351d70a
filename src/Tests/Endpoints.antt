-- ===== src/Tests/Endpoints.antt =====
-- The route of the proxy and the operations on the servers at concrete inputs.
use ollama_proxy_server.Prelude.{
  ℕ, ◌+◌, ◌≡◌, refl, true, none, [], ◌∷◌, map, name_error, ok, err, leb, ltb, ◌&&◌, any, filter,
  size, split, split_from, strip, drop_while, drop_end, lstrip_slash,
}
use ollama_proxy_server.Json.{str, arr, obj, nil, cons, end, field, find, truthy}
use ollama_proxy_server.Servers.{models_list, has_named}
use ollama_proxy_server.Servers.Http.{HttpClient}
use ollama_proxy_server.Servers.Requests.{Outcome, refusal, matches_name, delete_model_on_server}
use ollama_proxy_server.Servers.Requests.Confirmed.{
  IsConfirmed, deletion, delete_model_on_server-IsConfirmed,
}
use ollama_proxy_server.Servers.Running.{ServerRow}
use ollama_proxy_server.Proxy.Backend.{get_active_servers}
use ollama_proxy_server.Proxy.Request.{check_path, read_body, handle_think, blocked_paths}
use ollama_proxy_server.Proxy.Endpoint.{
  App, Setting, Prepared, loads_or_none, model_server, prepare, proxy_ollama,
}
use ollama_proxy_server.Proxy.Endpoint.Named.{proxy_ollama_named}
use ollama_proxy_server.Vllm.{Python}
use ollama_proxy_server.Tests.Routes.{server, chat, start, unreachable, frozen, one_retry}
use ollama_proxy_server.Tests.Adapters.{test_python, no_vllm_client}

abbrev named_python : Python
named_python = record test_python { loads = λ s. ok (obj (field "model" (str "llama3") end)) }

abbrev not_found : HttpClient ℕ
not_found = record {
  request = λ r w. (ok (record { status_code = 404; text = "{}" }), w + 1);
  stream = λ r w. (ok (record { status_code = 404; chunks = []; failure = none }), w + 1);
  is_success = λ status. leb 200 status && ltb status 300;
  show_status = λ status. "404";
  is_safe_url = λ url w. true;
  decrypt_data = λ sealed. "key";
  show_error = λ e. "error";
}

abbrev pub llama_row : ServerRow
llama_row = record {
  server = server 1 "one";
  available_models = arr (cons (obj (field "name" (str "llama3") end)) nil);
}

abbrev setting : Setting ℕ
setting = record {
  py = named_python;
  client = unreachable;
  http_client = not_found;
  vllm_client = no_vllm_client;
  host = frozen;
  config = one_retry;
  blocked_ollama_endpoints = "";
  api_key_id = 1;
  rows = llama_row ∷ [];
  all_metadata = [];
}

abbrev app : App ℕ
app = record { gateway = start; logs = []; next_id = 1 }

abbrev prepared : Prepared
prepared = record { body_bytes = "{}"; model_name = str "llama3" }

row_is_active : get_active_servers (map (λ row. row.server) setting.rows) ≡ ok (server 1 "one" ∷ [])
unfolding get_active_servers filter
row_is_active = refl

chat_is_allowed : check_path setting.blocked_ollama_endpoints chat.path ≡ ok "chat"
unfolding check_path blocked_paths any filter split split_from strip drop_while drop_end
    lstrip_slash
chat_is_allowed = refl

chat_is_prepared :
    prepare setting chat.body_bytes (read_body (loads_or_none setting.py) chat.body_bytes)
    ≡ ok prepared
unfolding prepare read_body handle_think find
chat_is_prepared = refl

llama_is_listed :
    any
      (λ s. s.is_active && has_named (models_list (loads_or_none setting.py) s))
      (map model_server setting.rows)
    ≡ true
unfolding any has_named models_list truthy find
llama_is_listed = refl

proxy_ollama_named_example :
    proxy_ollama setting chat app ≡ (err (name_error "name '_model_matches' is not defined"), app)
proxy_ollama_named_example =
    proxy_ollama_named setting chat app (server 1 "one" ∷ []) "chat" "llama3" prepared row_is_active
      chat_is_allowed chat_is_prepared refl refl (unfold size in refl) llama_is_listed

abbrev deleted : Outcome
deleted = record { success = true; message = "Model 'llama3' not found on server." }

delete_not_there :
    (delete_model_on_server test_python not_found (server 1 "one") "llama3" 0).0 ≡ ok deleted
unfolding delete_model_on_server refusal matches_name size
delete_not_there = refl

delete_model_on_server-IsConfirmed_example :
    (refusal test_python "Deleting models is not supported for vLLM servers."
        (server 1 "one")
        "llama3"
      ≡ none)
    × IsConfirmed test_python not_found
        (not_found.request (deletion test_python not_found (server 1 "one") "llama3") 0).0
delete_model_on_server-IsConfirmed_example =
    delete_model_on_server-IsConfirmed test_python not_found (server 1 "one") "llama3" 0 deleted
      delete_not_there refl
