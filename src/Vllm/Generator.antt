-- ===== src/Vllm/Generator.antt =====
-- app/api/v1/routes/proxy.py: `stream_generator` of `_proxy_to_vllm`, which passes the chunks of a
-- vLLM backend on as they are and reads the token counts from them. A chunk, the tracker and the
-- scheduled updates are those of Proxy/Tracking. Nothing that a line raises is caught but a
-- JSONDecodeError.
pub mod Once
use ollama_proxy_server.Prelude.{
  ℕ, Bool, true, false, not, ◌&&◌, Option, none, some, List, [], ◌∷◌, String, Error,
  json_decode_error, unicode_error, Result, ok, err, Exec, continue, pure, lift, str_eq, strip,
  append, is_nil, ◌==◌, if◌then◌else◌,
}
use ollama_proxy_server.Raises
use ollama_proxy_server.Exec.{◌>>=◌, ◌>>◌}
use ollama_proxy_server.Json.{Json, bool, str, arr, obj, nil, truthy, is_object, get}
use ollama_proxy_server.Json.Dynamic.{get_or, get_if_in, first_of, object}
use ollama_proxy_server.Lines.{read_chunk_guarded}
use ollama_proxy_server.Proxy.Tokens.{Tokens, usage_counts}
use ollama_proxy_server.Proxy.Tracking.{Chunk, utf8, undecodable, Tracker, fresh, finalize, data_of}
use ollama_proxy_server.Vllm.{Python, format}

-- What the backend sends: a status, the body that `aread` gives, and the chunks of `aiter_raw` with
-- the exception that ends them, if any.
pub record VllmStream : Type 0 where
  pub status_code : ℕ
  pub body : Chunk
  pub chunks : List Chunk
  pub failure : Option Error

module _ (py : Python) (log_id : Option ℕ) (model_name : Json) where
  -- `error_json["error"]["message"]`, where that is there; else the text stays
  error_detail : String → Json → Json
  error_detail error_msg error_json = elim found [
    | ok (some message) ↦ message
    | ok none ↦ str error_msg
    | err e ↦ str error_msg
  ]
    where
      message_of : Option Json → Result (Option Json)
      message_of none = ok none
      message_of (some error) = if is_object error then get_if_in "message" error else ok none

      found : Result (Option Json)
      found = Raises.◌>>=◌ (get_if_in "error" error_json) message_of

  error_message : String → Json
  unfolding error_detail
  error_message error_msg = elim (py.loads error_msg) [
    | ok error_json ↦ error_detail error_msg error_json
    | err e ↦ str error_msg
  ]

  error_chunk : String → Chunk
  unfolding error_message
  error_chunk error_msg = utf8 (
      append
        (py.dumps (
          object (
            ("error", str (append "vLLM server error: " (format py (error_message error_msg))))
            ∷ ("model", model_name)
            ∷ ("done", bool true)
            ∷ [])))
        "\n")

  keep_usage : Option Json → Exec Tracker (Unit {0})
  keep_usage none tracker = (ok tt, tracker)
  keep_usage (some usage) tracker =
      if truthy usage
      then continue (usage_counts usage)
          (λ tokens t. (ok tt, record t { accumulated_tokens = tokens })) tracker
      else (ok tt, tracker)

  finish_reason : Json → Result Json
  finish_reason choices =
      let reason = Raises.◌>>=◌ (first_of choices) (get "finish_reason") in
      if truthy choices then reason else ok (bool false)

  -- the statements on the JSON of a line
  unfoldable pub vllm_track_value : Json → Exec Tracker (Unit {0})
  unfolding keep_usage finish_reason
  vllm_track_value value = do
    usage ← lift (get_if_in "usage" value)
    keep_usage usage
    choices ← lift (get_or "choices" (arr nil) value)
    reason ← lift (finish_reason choices)
    λ tracker. (ok tt, finalize log_id (truthy reason) tracker)

  -- `except json.JSONDecodeError: pass`
  skip_undecoded : Result (Unit {0}) → Result (Unit {0})
  skip_undecoded (err (json_decode_error message)) = ok tt
  skip_undecoded result = result

  parse_and_track : String → Exec Tracker (Unit {0})
  unfolding vllm_track_value skip_undecoded
  parse_and_track data_content tracker =
      let (r, tracker') =
        (do value ← lift (py.loads data_content); vllm_track_value value) tracker in
      (skip_undecoded r, tracker')

  -- the body of `for line in lines`
  unfoldable pub vllm_track_line : String → Exec Tracker (Unit {0})
  unfolding parse_and_track
  vllm_track_line line =
      if is_nil (strip line)
      then pure tt
      else if str_eq (data_of line) "[DONE]"
      then pure tt
      else parse_and_track (data_of line)

  -- the rest of the loop, behind a chunk that has been yielded and read
  pub after_chunk :
      String
      → (String → Tracker → List Chunk × (Result String × Tracker))
      → Result String
      → Tracker
      → List Chunk × (Result String × Tracker)
  after_chunk text next (ok kept) tracker =
      let (yielded, end) = next kept tracker in (utf8 text ∷ yielded, end)
  after_chunk text next (err e) tracker = (utf8 text ∷ [], (err e, tracker))

  -- `async for chunk in vllm_response.aiter_raw()`; what is left in the buffer is not read
  unfoldable pub vllm_chunks :
      Option Error → String → List Chunk → Tracker → List Chunk × (Result String × Tracker)
  unfolding vllm_track_line
  vllm_chunks none buffer [] tracker = ([], (ok buffer, tracker))
  vllm_chunks (some e) buffer [] tracker = ([], (err e, tracker))
  vllm_chunks failure buffer (undecodable bytes ∷ chunks) tracker =
      let (yielded, end) = vllm_chunks failure buffer chunks tracker in
      (undecodable bytes ∷ yielded, end)
  vllm_chunks failure buffer (utf8 text ∷ chunks) tracker =
      let (r, tracker') = read_chunk_guarded vllm_track_line buffer text tracker in
      after_chunk text (λ kept t. vllm_chunks failure kept chunks t) r tracker'

  refused : Chunk → List Chunk × (Result String × Tracker)
  unfolding error_chunk
  refused (utf8 error_msg) = (error_chunk error_msg ∷ [], (ok "", fresh))
  refused (undecodable bytes) = ([], (err (unicode_error "invalid start byte"), fresh))

  -- what the client receives, whether the generator raises, and the tracker at its end
  unfoldable pub stream_generator : VllmStream → List Chunk × (Result String × Tracker)
  unfolding vllm_chunks refused
  stream_generator response =
      let passed = vllm_chunks response.failure "" response.chunks fresh in
      if response.status_code == 200 then passed else refused response.body
