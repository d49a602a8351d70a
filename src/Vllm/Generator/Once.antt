-- ===== src/Vllm/Generator/Once.antt =====
-- How often the token counts of a vLLM stream are written.
use ollama_proxy_server.Prelude.{
  ℕ, ◌≡◌, Bool, false, ◌≤◌, ◌==◌, refl, length, length-append, if◌then◌else◌, Option, none, some,
  List, [], ◌∷◌, String, Error, Result, ok, err, lift, str_eq, strip, is_nil, arith, Bool-cases,
  inl, inr,
}
use ollama_proxy_server.Json.{Json, truthy}
use ollama_proxy_server.Lines.{read_chunk_guarded}
use ollama_proxy_server.Lines.Keeps.{
  Keeps, if-Keeps, bind-Keeps, continue-Keeps, read_chunk_guarded-Keeps,
}
use ollama_proxy_server.Proxy.Tokens.{usage_counts}
use ollama_proxy_server.Proxy.Tracking.{
  Chunk, utf8, undecodable, Tracker, fresh, has_log, finalize, data_of,
}
use ollama_proxy_server.Vllm.{Python}
use ollama_proxy_server.Vllm.Generator.{
  keep_usage, vllm_track_value, parse_and_track, vllm_track_line, after_chunk, vllm_chunks, refused,
  VllmStream, stream_generator,
}

-- The most updates that a log entry allows
abbrev pub most : Option ℕ → ℕ
most log_id = if has_log log_id then 1 else 0

module _ (py : Python) (log_id : Option ℕ) (model_name : Json) where
  -- There are no more updates than the log entry allows, and none before the flag is set.
  abbrev pub IsReported : Tracker → Type 0
  IsReported t =
      (length t.scheduled ≤ most log_id) × (t.tokens_finalized ≡ false → length t.scheduled ≡ 0)

  finalize-IsReported :
      (done : Bool) (t : Tracker) → IsReported t → IsReported (finalize log_id done t)
  unfolding finalize
  finalize-IsReported done t h =
      ground (arith, h.0, h.1, length-append t.scheduled (t.accumulated_tokens ∷ []))

  keep_usage-IsReported :
      (found : Option Json) → Keeps IsReported (keep_usage py log_id model_name found)
  unfolding keep_usage
  keep_usage-IsReported none t h = h
  keep_usage-IsReported (some usage) t h = elim (Bool-cases (truthy usage)) [
    | inl e ↦ rw e (
        continue-Keeps IsReported (usage_counts usage)
          (λ tokens t'. (ok tt, record t' { accumulated_tokens = tokens })) (λ tokens t' h'. h') t
          h)
    | inr e ↦ rw e h
  ]

  track_value-IsReported :
      (value : Json) → Keeps IsReported (vllm_track_value py log_id model_name value)
  unfolding vllm_track_value
  track_value-IsReported value =
      bind-Keeps IsReported _ _ (λ t h. h)
        (λ usage. bind-Keeps IsReported _ _ (keep_usage-IsReported usage) (λ u.
          bind-Keeps IsReported _ _ (λ t h. h)
            (λ choices.
              bind-Keeps IsReported _ _ (λ t h. h)
                (λ reason t h. finalize-IsReported (truthy reason) t h))))

  track_line-IsReported :
      (line : String) → Keeps IsReported (vllm_track_line py log_id model_name line)
  unfolding vllm_track_line parse_and_track
  track_line-IsReported line =
      if-Keeps IsReported (is_nil (strip line)) _ _ (λ t h. h)
        (if-Keeps IsReported (str_eq (data_of line) "[DONE]") _ _ (λ t h. h)
          (bind-Keeps IsReported (lift (py.loads (data_of line))) _ (λ t h. h)
            track_value-IsReported))

  vllm_chunks-IsReported :
      (failure : Option Error) (buffer : String) (chunks : List Chunk) (t : Tracker)
      → IsReported t
      → IsReported (vllm_chunks py log_id model_name failure buffer chunks t).1.1
  unfolding vllm_chunks after_chunk
  vllm_chunks-IsReported none buffer [] t h = h
  vllm_chunks-IsReported (some e) buffer [] t h = h
  vllm_chunks-IsReported failure buffer (undecodable bytes ∷ chunks) t h =
      vllm_chunks-IsReported failure buffer chunks t h
  vllm_chunks-IsReported failure buffer (utf8 text ∷ chunks) t h =
      after (read_chunk_guarded (vllm_track_line py log_id model_name) buffer text t).0 _
        (read_chunk_guarded-Keeps (vllm_track_line py log_id model_name) IsReported
          track_line-IsReported buffer text t h)
        (λ kept t' h'. vllm_chunks-IsReported failure kept chunks t' h')
    where
      after :
          (r : Result String) (t' : Tracker)
          → IsReported t'
          → ((kept : String) (t'' : Tracker)
              → IsReported t''
              → IsReported (vllm_chunks py log_id model_name failure kept chunks t'').1.1)
          → IsReported
              (after_chunk py log_id model_name text
                (λ kept t''. vllm_chunks py log_id model_name failure kept chunks t'')
                r
                t').1.1
      after (ok kept) t' h' ih = ih kept t' h'
      after (err e) t' h' ih = h'

  refused-IsReported : (body : Chunk) → IsReported (refused py log_id model_name body).1.1
  unfolding refused
  refused-IsReported (utf8 text) = (omega arith, λ e. refl)
  refused-IsReported (undecodable bytes) = (omega arith, λ e. refl)

  -- For every answer of a vLLM backend, whatever its status, its chunks, their lines and its failure, the
  -- generator schedules at most one update of the log entry, and none where there is no log entry.
  pub stream_generator_reports :
      (response : VllmStream)
      → length (stream_generator py log_id model_name response).1.1.scheduled ≤ most log_id
  unfolding stream_generator
  stream_generator_reports response = elim (Bool-cases (response.status_code == 200)) [
    | inl success ↦
        rw success
          (vllm_chunks-IsReported response.failure "" response.chunks fresh
            (omega arith, λ e. refl)).0
    | inr failure ↦ rw failure (refused-IsReported response.body).0
  ]
