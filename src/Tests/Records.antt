-- ===== src/Tests/Records.antt =====
-- The usage log and the models' names at concrete inputs.
use ollama_proxy_server.Prelude.{
  ℕ, ◌≤◌, ◌≡◌, ◌≢◌, ◌↔◌, refl, true, Option, none, some, [], ◌∷◌, String, ok, pos, str_eq,
  if◌then◌else◌, In, length, arith, filter, any, take_chars, lower, contains, starts_with,
}
use ollama_proxy_server.Json.{Fields, Json, truthy, find, str, arr, obj, nil, cons, end, field}
use ollama_proxy_server.Proxy.Request.{handle_think, knows_think}
use ollama_proxy_server.Proxy.Request.Think.{handle_think_removed}
use ollama_proxy_server.Usage.{UsageLog, create_usage_log, find_log, update_usage_log_with_tokens}
use ollama_proxy_server.Usage.Entries.{
  recounted, changed, IsLogged, update_usage_log_with_tokens-find_log, create_usage_log-IsLogged,
}
use ollama_proxy_server.Servers.{
  ModelServer, chat_only, sorted_set, insert_name, names_in, models_list, model_name_of, wants,
  is_embedding_model, names_of_servers, get_all_available_model_names,
}
use ollama_proxy_server.Servers.Names.{Listed, IsOfType, get_all_available_model_names_iff}

abbrev first_entry : UsageLog
first_entry = record {
  id = 1;
  api_key_id = 5;
  endpoint = "/api/chat";
  status_code = 200;
  server_id = none;
  model = some "llama3";
  prompt_tokens = none;
  completion_tokens = none;
  total_tokens = none;
}

update_usage_log_with_tokens-find_log_example :
    (let (updated, logs') =
        update_usage_log_with_tokens 1 (some (pos 3)) (some (pos 4)) none (first_entry ∷ []) in
      (updated
        ≡ changed (recounted (some (pos 3)) (some (pos 4)) none) (find_log 1 (first_entry ∷ [])))
      × (find_log 1 logs' ≡ updated)
      × ((other : ℕ) → 1 ≢ other → find_log other logs' ≡ find_log other (first_entry ∷ [])))
update_usage_log_with_tokens-find_log_example =
    update_usage_log_with_tokens-find_log 1 (some (pos 3)) (some (pos 4)) none (first_entry ∷ [])

create_usage_log-IsLogged_example : IsLogged 2 (first_entry ∷ []) (
    create_usage_log 2
      (pos 5)
      "/api/chat"
      (pos 200)
      none
      (some "llama3")
      none
      none
      none
      (first_entry ∷ []))
unfolding find_log
create_usage_log-IsLogged_example =
    create_usage_log-IsLogged 2 (pos 5) "/api/chat" (pos 200) none (some "llama3") none none none
      (first_entry ∷ []) refl

abbrev no_json : String → Option Json
no_json s = none

abbrev chat_server : ModelServer
chat_server = record {
  name = "one";
  is_active = true;
  available_models = arr (cons (obj (field "name" (str "llama3") end)) nil);
}

one_name :
    length (
      sorted_set
        (names_of_servers no_json chat_only (filter (λ s. s.is_active) (chat_server ∷ []))))
    ≤ 10000
unfolding sorted_set names_of_servers filter names_in models_list model_name_of wants
    is_embedding_model insert_name take_chars lower contains starts_with truthy find
one_name = omega arith

get_all_available_model_names_iff_example :
    In "llama3" (get_all_available_model_names no_json chat_only (chat_server ∷ []))
    ↔ (IsOfType chat_only "llama3" × Listed no_json "llama3" (chat_server ∷ []))
get_all_available_model_names_iff_example =
    get_all_available_model_names_iff no_json chat_only "llama3" (chat_server ∷ []) one_name

abbrev dumped : Json → String
dumped body = "{}"

handle_think_removed_example :
    (body' : Fields) × (handle_think dumped
        (str "llama3")
        (field "think" (str "high") end)
        "{\"think\": \"high\"}"
      ≡ ok (body', dumped (obj body')))
    × ((other : String)
        → find other body'
          ≡ (if str_eq "think" other then none else find other (field "think" (str "high") end)))
unfolding knows_think any contains lower starts_with find
handle_think_removed_example =
    handle_think_removed dumped "llama3" (field "think" (str "high") end) "{\"think\": \"high\"}"
      refl refl refl
