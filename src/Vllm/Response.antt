-- ===== src/Vllm/Response.antt =====
-- app/core/vllm_translator.py: `translate_vllm_to_ollama_embeddings` and `translate_vllm_to_ollama_chat`,
-- for an answer that is no stream. The clock is read at most once, at the reading that is given.
use ollama_proxy_server.Prelude.{ℕ, true, [], ◌∷◌, String, Result, ok, replace, pos, if◌then◌else◌}
use ollama_proxy_server.Raises.{◌>>=◌}
use ollama_proxy_server.Json.{Json, null, bool, int, str, arr, obj, nil, end, truthy, get}
use ollama_proxy_server.Json.Dynamic.{get_or, first_of, object}
use ollama_proxy_server.Vllm.{Python}

-- `v[0].get(key, default) if v else default`
unfoldable pub first_get : String → Json → Json → Result Json
first_get key default v =
    let found = first_of v >>= get_or key default in if truthy v then found else ok default

unfoldable pub translate_vllm_to_ollama_embeddings : Json → Result Json
translate_vllm_to_ollama_embeddings vllm_payload = do
  embedding_data ← get_or "data" (arr nil) vllm_payload
  embedding ←
      (let found = first_of embedding_data >>= get "embedding" in
        if truthy embedding_data then found else ok (arr nil))
  ok (object (("embedding", embedding) ∷ []))

module _ (py : Python) (reading : ℕ) where
  created_at : Json → Result String
  created_at null = ok (replace "+00:00" "Z" (py.now reading))
  created_at ts = do stamp ← py.fromtimestamp ts; ok (replace "+00:00" "Z" stamp)

  empty_message : Json
  empty_message = object (("role", str "assistant") ∷ ("content", str "") ∷ [])

  unfoldable pub translate_vllm_to_ollama_chat : Json → Result Json
  unfolding created_at empty_message first_get
  translate_vllm_to_ollama_chat vllm_payload = do
    choices ← get_or "choices" (arr nil) vllm_payload
    message ← first_get "message" empty_message choices
    finish_reason ← first_get "finish_reason" (str "stop") choices
    created_ts ← get "created" vllm_payload
    created ← created_at created_ts
    usage ← get_or "usage" (obj end) vllm_payload
    model ← get_or "model" (str "") vllm_payload
    prompt_tokens ← get_or "prompt_tokens" (int (pos 0)) usage
    completion_tokens ← get_or "completion_tokens" (int (pos 0)) usage
    ok (
        object (
          ("model", model)
          ∷ ("created_at", str created)
          ∷ ("message", message)
          ∷ ("done", bool true)
          ∷ ("done_reason", finish_reason)
          ∷ ("prompt_eval_count", prompt_tokens)
          ∷ ("eval_count", completion_tokens)
          ∷ []))
