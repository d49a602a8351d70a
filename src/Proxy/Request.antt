-- ===== src/Proxy/Request.antt =====
-- app/api/v1/routes/proxy.py: what `proxy_ollama` does with a request before it chooses a server: the
-- blocked endpoints, the model's name in the body and the parameter `think`; and `_async_log_usage`.
-- `loads` is `json.loads`, none where it raises, and `dumps` is `json.dumps`.
pub mod Think
use ollama_proxy_server.Prelude.{
  ℕ, ◌≡◌, Bool, true, false, not, ◌&&◌, Option, none, some, List, [], ◌∷◌, map, String, Error, http,
  attribute_error, Result, ok, err, ℤ, str_eq, strip, lstrip_slash, split, is_nil, filter, any,
  lower, contains, append, if◌then◌else◌,
}
use ollama_proxy_server.Raises.{◌>>=◌}
use ollama_proxy_server.Json.{
  Json, null, bool, str, obj, Fields, end, find, put, del_key, has_key, truthy, is_true, or_null,
}
use ollama_proxy_server.Usage.{UsageLog, create_usage_log}

-- `{p.strip().lstrip("/") for p in setting.split(",") if p.strip()}`
unfoldable pub blocked_paths : String → List String
blocked_paths setting =
    map (λ p. lstrip_slash (strip p)) (filter (λ p. not (is_nil (strip p))) (split 44 setting))

unfoldable pub check_path : String → String → Result String
check_path setting path =
    let request_path = lstrip_slash (strip path) in
    if any (str_eq request_path) (blocked_paths setting)
    then err (http 403 "Access to the endpoint is disabled by the proxy administrator.")
    else ok path

-- The body and the model's name: an empty object and None where the body is empty or no JSON.
unfoldable pub read_body : (String → Option Json) → String → Json × Json
read_body loads body_bytes = elim (if is_nil body_bytes then none else loads body_bytes) [
  | none ↦ (obj end, null)
  | some body ↦ (body, elim (named body) [ none ↦ null | some name ↦ name ])
]
  where
    named : Json → Option Json
    named (obj fields) = find "model" fields
    named other = none

supported_think_models : List String
supported_think_models = "qwen" ∷ "gpt-oss" ∷ "deepseek" ∷ []

-- The model is on the list of those that know `think`.
unfoldable pub knows_think : String → Bool
unfolding supported_think_models
knows_think model_name = any (λ keyword. contains keyword (lower model_name)) supported_think_models

module _ (dumps : Json → String) where
  think_of : String → Fields → String → Fields × String
  think_of model_name body body_bytes =
      let medium = put "think" (str "medium") body in
      let removed = del_key "think" body in
      if knows_think model_name
      then if contains "gpt-oss" (lower model_name) && is_true (or_null (find "think" body))
        then (medium, dumps (obj medium))
        else (body, body_bytes)
      else (removed, dumps (obj removed))

  -- the statements on `think`: the body behind them, and its text
  unfoldable pub handle_think : Json → Fields → String → Result (Fields × String)
  unfolding think_of
  handle_think (str model_name) body body_bytes =
      if not (is_nil model_name) && has_key "think" body
      then ok (think_of model_name body body_bytes)
      else ok (body, body_bytes)
  handle_think other body body_bytes =
      if truthy other && has_key "think" body
      then err (attribute_error "no attribute 'lower'")
      else ok (body, body_bytes)

-- `_async_log_usage`: the id of the entry, None where `create_usage_log` raises
logged_id : Result UsageLog → Option ℕ
logged_id (ok log_entry) = some log_entry.id
logged_id (err e) = none

unfoldable pub async_log_usage :
    ℕ
    → ℤ
    → String
    → ℤ
    → Option ℕ
    → Option String
    → Option ℤ
    → Option ℤ
    → Option ℤ
    → List UsageLog
    → Option ℕ × List UsageLog
unfolding logged_id
async_log_usage new_id api_key_id endpoint status_code server_id model prompt completion total
      logs =
    let (made, logs') =
      create_usage_log new_id api_key_id endpoint status_code server_id model prompt completion
        total logs in
    (logged_id made, logs')
