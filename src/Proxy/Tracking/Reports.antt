-- ===== src/Proxy/Tracking/Reports.antt =====
-- How often `token_tracking_stream` reports token counts to the usage log.
use ollama_proxy_server.Prelude.{
  ℕ, ◌≤◌, ◌≡◌, Bool, true, false, not, ◌&&◌, ◌||◌, Option, none, some, List, [], ◌∷◌, ◌++◌, String,
  Error, Result, ok, err, continue, arith, length, length-append, if◌then◌else◌, str_eq, is_nil,
  strip, starts_with,
}
use ollama_proxy_server.Json.{Json, get, truthy}
use ollama_proxy_server.Lines.{read_chunk_guarded}
use ollama_proxy_server.Lines.Keeps.{Keeps, read_chunk_guarded-Keeps, if-Keeps}
use ollama_proxy_server.Proxy.Tokens.{Tokens, extract_tokens_from_chunk, accumulate}
use ollama_proxy_server.Proxy.Tracking.{
  Chunk, utf8, undecodable, Tracker, fresh, has_log, finalize, track_value, track_parsed,
  track_line, track_rest_value, track_rest_parsed, track_rest, after_text, track_chunks, finish,
  token_tracking_stream, data_of,
}

module _ (loads : String → Option Json) (log_id : Option ℕ) where
  -- At most one report, none before the flag, and none without a log entry.
  pub record IsOnce (t : Tracker) : Type 0 where
    pub at_most : length t.scheduled ≤ 1
    pub before : t.tokens_finalized ≡ false → length t.scheduled ≡ 0
    pub logged : has_log log_id ≡ false → length t.scheduled ≡ 0

  finalize-IsOnce : (done : Bool) (t : Tracker) → IsOnce t → IsOnce (finalize log_id done t)
  unfolding finalize
  finalize-IsOnce done t h = ground (arith, length-append t.scheduled (t.accumulated_tokens ∷ []))

  track_value-IsOnce : (v : Json) → Keeps IsOnce (track_value loads log_id v)
  unfolding track_value
  track_value-IsOnce v t h = go (extract_tokens_from_chunk v) (get "done" v)
    where
      go :
          (r : Result Tokens) (d : Result Json)
          → IsOnce
              (continue {S = Tracker} {B = Unit {0}} r
                (λ tokens t'.
                  continue {S = Tracker} {B = Unit {0}} d
                    (λ done t''. (ok tt, finalize log_id (truthy done) t''))
                    (record t' { accumulated_tokens = accumulate t'.accumulated_tokens tokens }))
                t).1
      go (ok tokens) (ok done) =
          finalize-IsOnce (truthy done) _
            (record { at_most = h.at_most; before = h.before; logged = h.logged })
      go (ok tokens) (err e) = record { at_most = h.at_most; before = h.before; logged = h.logged }
      go (err e) d = h

  track_line-IsOnce : (line : String) → Keeps IsOnce (track_line loads log_id line)
  unfolding track_line
  track_line-IsOnce line =
      if-Keeps IsOnce (is_nil (strip line)) _ _ (λ t h. h)
        (if-Keeps IsOnce (starts_with line "data: " && str_eq (data_of line) "[DONE]") _ _
          (λ t h. h) (parsed (loads (data_of line))))
    where
      parsed : (o : Option Json) → Keeps IsOnce (track_parsed loads log_id o)
      parsed none = λ t h. h
      parsed (some v) = track_value-IsOnce v

  track_rest_value-IsOnce : (v : Json) → Keeps IsOnce (track_rest_value loads log_id v)
  unfolding track_rest_value
  track_rest_value-IsOnce v t h = go (get "done" v) (extract_tokens_from_chunk v)
    where
      go :
          (d : Result Json) (r : Result Tokens)
          → IsOnce
              (continue {S = Tracker} {B = Unit {0}} d
                (λ done t'.
                  if truthy done && has_log log_id && not t'.tokens_finalized
                  then continue {S = Tracker} {B = Unit {0}} r
                      (λ tokens t''.
                        let merged = accumulate t''.accumulated_tokens tokens in
                        (
                          ok tt,
                          record t'' {
                            accumulated_tokens = merged;
                            scheduled = t''.scheduled ++ merged ∷ [];
                          },
                        ))
                      (record t' { tokens_finalized = true })
                  else (ok tt, t'))
                t).1
      go (ok done) (ok tokens) =
          ground (arith, length-append t.scheduled (accumulate t.accumulated_tokens tokens ∷ []))
      go (ok done) (err e) = ground arith
      go (err e) r = h

  track_rest-IsOnce : (buffer : String) → Keeps IsOnce (track_rest loads log_id buffer)
  unfolding track_rest
  track_rest-IsOnce buffer =
      if-Keeps IsOnce (is_nil (strip buffer)) _ _ (λ t h. h)
        (if-Keeps IsOnce (is_nil (data_of buffer) || str_eq (data_of buffer) "[DONE]") _ _
          (λ t h. h) (parsed (loads (data_of buffer))))
    where
      parsed : (o : Option Json) → Keeps IsOnce (track_rest_parsed loads log_id o)
      parsed none = λ t h. h
      parsed (some v) = track_rest_value-IsOnce v

  track_chunks-IsOnce :
      (failure : Option Error) (buffer : String) (chunks : List Chunk) (t : Tracker)
      → IsOnce t
      → IsOnce (track_chunks loads log_id failure buffer chunks t).1.1
  unfolding track_chunks
  track_chunks-IsOnce none buffer [] t h = h
  track_chunks-IsOnce (some e) buffer [] t h = h
  track_chunks-IsOnce failure buffer (undecodable bytes ∷ chunks) t h =
      track_chunks-IsOnce failure buffer chunks t h
  track_chunks-IsOnce failure buffer (utf8 text ∷ chunks) t h =
      after (read_chunk_guarded (track_line loads log_id) buffer text t).0 _
        (read_chunk_guarded-Keeps (track_line loads log_id) IsOnce track_line-IsOnce buffer text t
          h)
        (λ kept t' h'. track_chunks-IsOnce failure kept chunks t' h')
    where
      after :
          (r : Result String) (t' : Tracker)
          → IsOnce t'
          → ((kept : String) (t'' : Tracker)
              → IsOnce t''
              → IsOnce (track_chunks loads log_id failure kept chunks t'').1.1)
          → IsOnce
              (after_text loads log_id text
                (λ kept t''. track_chunks loads log_id failure kept chunks t'')
                r
                t').1.1
      after (ok kept) t' h' k = unfold after_text in k kept t' h'
      after (err e) t' h' k = unfold after_text in h'

  finish-IsOnce : (r : Result String) (t : Tracker) → IsOnce t → IsOnce (finish loads log_id r t)
  unfolding finish
  finish-IsOnce (ok buffer) t h = track_rest-IsOnce buffer t h
  finish-IsOnce (err e) t h = h

  -- Whatever the backend sends, the stream schedules at most one update of the usage log, and none if
  -- the request has no log entry.
  pub stream_reports :
      (chunks : List Chunk) (failure : Option Error)
      → (length (token_tracking_stream loads log_id chunks failure).1.scheduled ≤ 1)
        × (has_log log_id ≡ false
            → length (token_tracking_stream loads log_id chunks failure).1.scheduled ≡ 0)
  unfolding token_tracking_stream
  stream_reports chunks failure =
      let end = track_chunks loads log_id failure "" chunks fresh in
      let once =
        finish-IsOnce end.1.0 end.1.1 (track_chunks-IsOnce failure "" chunks fresh (omega arith)) in
      (once.at_most, once.logged)
