-- ===== src/Vllm/Route.antt =====
-- app/api/v1/routes/proxy.py: `_proxy_to_vllm` up to the answer. The HTTP client, the decryption of
-- keys and the scheduling of a token update are a VllmClient over a state of the world. A generator is
-- only returned here: the server runs it when it sends the answer, see Generator.
use ollama_proxy_server.Prelude.{
  ℕ, Bool, false, ◌||◌, Option, none, some, [], ◌∷◌, String, Error, http, http_status_error,
  json_decode_error, attribute_error, Result, ok, err, Exec, continue, lift, str_eq, append, is_nil,
  rstrip_slash, Dict, if◌then◌else◌,
}
use ollama_proxy_server.Raises
use ollama_proxy_server.Exec.{◌>>=◌, ◌>>◌}
use ollama_proxy_server.Json.{Json, bool, obj, Fields, end, find, put, truthy, or_null, get}
use ollama_proxy_server.Json.Dynamic.{get_or, or_else}
use ollama_proxy_server.Proxy.Tokens.{Tokens}
use ollama_proxy_server.Proxy.Tracking.{has_log}
use ollama_proxy_server.Proxy.Backend.{OllamaServer}
use ollama_proxy_server.Vllm.{Python}
use ollama_proxy_server.Vllm.Request.{
  translate_ollama_to_vllm_chat, translate_ollama_to_vllm_embeddings,
}
use ollama_proxy_server.Vllm.Response.{
  translate_vllm_to_ollama_embeddings, translate_vllm_to_ollama_chat,
}

pub record VllmRequest : Type 0 where
  pub url : String
  pub headers : Dict String
  pub payload : Fields

pub record VllmResponse : Type 0 where
  pub status_code : ℕ
  pub text : String

pub record VllmClient (W : Type 0) : Type 0 where
  pub post : VllmRequest → Exec W VllmResponse
  -- the statuses at which `raise_for_status` raises nothing
  pub is_success : ℕ → Bool
  pub decrypt_data : String → String
  pub schedule : Tokens → W → W
  -- `f"{e}"`
  pub show_error : Error → String
  -- how often the clock has been read
  pub readings : W → ℕ

-- A StreamingResponse over the generator, or a JSONResponse
pub data VllmAnswer : Type 0 where
  streaming : VllmRequest → Json → VllmAnswer
  json_response : Json → VllmAnswer

-- `except json.JSONDecodeError` around the parsing of the body
abbrev pub invalid_json : Result Json → Result Json
invalid_json (err (json_decode_error message)) = err (http 400 "Invalid JSON body")
invalid_json result = result

module _ {W : Type 0} (py : Python) (client : VllmClient W) (log_id : Option ℕ)
    (server : OllamaServer) where
  unfoldable pub parse_payload : String → Result Json
  parse_payload body_bytes =
      if is_nil body_bytes then ok (obj end) else invalid_json (py.loads body_bytes)

  vllm_headers : Option String → Dict String
  vllm_headers none = ("Content-Type", "application/json") ∷ []
  vllm_headers (some encrypted) =
      let api_key = client.decrypt_data encrypted in
      if is_nil encrypted || is_nil api_key
      then ("Content-Type", "application/json") ∷ []
      else ("Content-Type", "application/json") ∷ ("Authorization", append "Bearer " api_key) ∷ []

  request_of : String → Fields → VllmRequest
  unfolding vllm_headers
  request_of vllm_path vllm_payload = record {
    url = append (rstrip_slash server.url) (append "/" vllm_path);
    headers = vllm_headers server.encrypted_api_key;
    payload = vllm_payload;
  }

  -- the request for the path, or the error of the translation or of a path that vLLM does not have
  unfoldable pub vllm_request : String → Fields → Result VllmRequest
  unfolding request_of
  vllm_request path ollama_payload =
      let chat = translate_ollama_to_vllm_chat py ollama_payload in
      if str_eq path "chat"
      then Raises.◌>>=◌ chat (λ payload. ok (request_of "v1/chat/completions" payload))
      else if str_eq path "embeddings"
      then ok (request_of "v1/embeddings" (translate_ollama_to_vllm_embeddings ollama_payload))
      else err (http 404 "Endpoint not supported for vLLM servers.")

  -- `response.raise_for_status()`
  check_response : VllmResponse → Result VllmResponse
  check_response response =
      if client.is_success response.status_code
      then ok response
      else err (http_status_error response.status_code response.text)

  reported : Json → Result Tokens
  reported usage = Raises.◌>>=◌ (get "prompt_tokens" usage) (λ prompt_tokens.
      Raises.◌>>=◌ (get "completion_tokens" usage) (λ completion_tokens.
        Raises.◌>>=◌ (get "total_tokens" usage) (λ total_tokens. ok (record {
          prompt_tokens = prompt_tokens;
          completion_tokens = completion_tokens;
          total_tokens = total_tokens;
        }))))

  -- `if log_id`: the update of the usage log
  schedule_tokens : Json → Exec W (Unit {0})
  unfolding reported
  schedule_tokens vllm_data w =
      if has_log log_id
      then continue (Raises.◌>>=◌ (get_or "usage" (obj end) vllm_data) reported)
          (λ tokens w'. (ok tt, client.schedule tokens w')) w
      else (ok tt, w)

  -- the name of the model is the one that was asked for
  rename : Json → Json → Json
  rename model_name (obj fields) =
      if truthy model_name then obj (put "model" model_name fields) else obj fields
  rename model_name other = other

  translate_answer : String → Json → Json → Exec W VllmAnswer
  unfolding rename
  translate_answer path model_name vllm_data w =
      if str_eq path "embeddings"
      then (
        Raises.◌>>=◌ (translate_vllm_to_ollama_embeddings vllm_data)
            (λ content. ok (json_response content)),
        w,
      )
      else (
        Raises.◌>>=◌ (translate_vllm_to_ollama_chat py (client.readings w) vllm_data)
            (λ content. ok (json_response (rename model_name content))),
        w,
      )

  -- the branch that is no stream, inside of the `try`
  unfoldable pub post_vllm : String → Json → VllmRequest → Exec W VllmAnswer
  unfolding check_response schedule_tokens translate_answer
  post_vllm path model_name request = do
    response ← client.post request
    checked ← lift (check_response response)
    vllm_data ← lift (py.loads checked.text)
    schedule_tokens vllm_data
    translate_answer path model_name vllm_data

  -- `except httpx.HTTPStatusError` and `except Exception`
  unfoldable pub as_http : Result VllmAnswer → Result VllmAnswer
  as_http (ok answer) = ok answer
  as_http (err (http_status_error status text)) =
      err (http status (append "vLLM server error: " text))
  as_http (err e) =
      err (http 500 (append "Failed to communicate with vLLM server: " (client.show_error e)))

  unfoldable pub ask_vllm : String → Json → VllmRequest → Exec W VllmAnswer
  unfolding post_vllm as_http
  ask_vllm path model_name request w =
      let (r, w') = post_vllm path model_name request w in
      if truthy (or_else (bool false) (find "stream" request.payload))
      then (ok (streaming request model_name), w)
      else (as_http r, w')

  unfoldable pub payload_of : String → Json → Exec W VllmAnswer
  unfolding vllm_request ask_vllm
  payload_of path (obj ollama_payload) w =
      continue (vllm_request path ollama_payload)
        (ask_vllm path (or_null (find "model" ollama_payload))) w
  payload_of path ollama_payload w = (err (attribute_error "no attribute 'get'"), w)

  unfoldable pub proxy_to_vllm : String → String → Exec W VllmAnswer
  unfolding parse_payload payload_of
  proxy_to_vllm path body_bytes w = continue (parse_payload body_bytes) (payload_of path) w
