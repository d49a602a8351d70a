-- ===== src/Proxy/Tracking/Division.antt =====
-- Where the backend's text is cut into chunks changes nothing in the token counts of a stream; and a
-- line that is no JSON object ends the stream.
use ollama_proxy_server.Prelude.{
  ℕ, ◌≡◌, refl, sym, ap, ◌∙◌, false, ◌&&◌, Option, none, some, List, [], ◌∷◌, map, String, Error,
  Result, ok, err, continue, str_eq, is_nil, strip, starts_with, append,
}
use ollama_proxy_server.Exec.{◌>>=◌}
use ollama_proxy_server.Json.{Json, is_object}
use ollama_proxy_server.Lines.{read_chunk_guarded}
use ollama_proxy_server.Lines.Split.{OneLine}
use ollama_proxy_server.Lines.Chunks.{read_all, concat, feed, read_chunk-feed, feed_raises}
use ollama_proxy_server.Lines.Guarded.{read_all_guarded-feed, guarded-eq-read_chunk}
use ollama_proxy_server.Proxy.Tokens.Counts.{extract_raises}
use ollama_proxy_server.Proxy.Tracking.{
  Chunk, utf8, Tracker, fresh, track_line, track_parsed, track_value, after_text, track_chunks,
  finish, token_tracking_stream, data_of,
}

module _ (loads : String → Option Json) (log_id : Option ℕ) where
  pub skips : (t : Tracker) → track_line loads log_id "" t ≡ (ok tt, t)
  unfolding track_line strip
  skips t = refl

  track_chunks-read_all :
      (buffer : String) (texts : List String) (t : Tracker)
      → (track_chunks loads log_id none buffer (map utf8 texts) t).1
        ≡ read_all (read_chunk_guarded (track_line loads log_id)) buffer texts t
  unfolding track_chunks ◌>>=◌
  track_chunks-read_all buffer [] t = refl
  track_chunks-read_all buffer (text ∷ texts) t =
      go (read_chunk_guarded (track_line loads log_id) buffer text t).0 _
        (λ kept t'. track_chunks-read_all kept texts t')
    where
      go :
          (r : Result String) (t' : Tracker)
          → ((kept : String) (t'' : Tracker)
              → (track_chunks loads log_id none kept (map utf8 texts) t'').1
                ≡ read_all (read_chunk_guarded (track_line loads log_id)) kept texts t'')
          → (after_text loads log_id text
              (λ kept t''. track_chunks loads log_id none kept (map utf8 texts) t'')
              r
              t').1
            ≡ continue r
                (λ kept. read_all (read_chunk_guarded (track_line loads log_id)) kept texts)
                t'
      go (ok kept) t' h = unfold after_text in h kept t'
      go (err e) t' h = unfold after_text in refl

  -- Two divisions of one text into chunks leave the same accumulated tokens and the same reports.
  pub stream_division :
      (texts texts' : List String)
      → concat texts ≡ concat texts'
      → (token_tracking_stream loads log_id (map utf8 texts) none).1
        ≡ (token_tracking_stream loads log_id (map utf8 texts') none).1
  unfolding token_tracking_stream
  stream_division texts texts' e =
      let fed = λ (xs : List String).
        track_chunks-read_all "" xs fresh
        ∙ read_all_guarded-feed (track_line loads log_id) skips "" xs fresh tt in
      ap (λ (p : Result String × Tracker). finish loads log_id p.0 p.1)
        (fed texts
          ∙ ap (λ (s : String). feed (track_line loads log_id) "" s fresh) e
          ∙ sym (fed texts'))

  track_line_raises :
      (line : String) (v : Json) (t : Tracker)
      → is_nil (strip line) ≡ false
      → (starts_with line "data: " && str_eq (data_of line) "[DONE]") ≡ false
      → loads (data_of line) ≡ some v
      → is_object v ≡ false
      → (e : Error) × (track_line loads log_id line t ≡ (err e, t))
  unfolding track_line track_parsed track_value
  track_line_raises line v t blank done parsed not_object =
      let (e, raised) = extract_raises v not_object in (e, rw (blank, done, parsed, raised))

  -- Where the first chunk of a stream is one complete line that is JSON and no object (a number, say),
  -- the client receives that chunk and none of the chunks behind it, however many there are.
  pub stream_cut :
      (line : String) (v : Json) (chunks : List Chunk) (failure : Option Error)
      → OneLine line
      → is_nil (strip line) ≡ false
      → (starts_with line "data: " && str_eq (data_of line) "[DONE]") ≡ false
      → loads (data_of line) ≡ some v
      → is_object v ≡ false
      → (token_tracking_stream loads log_id (utf8 (append line "\n") ∷ chunks) failure).0
        ≡ utf8 (append line "\n") ∷ []
  unfolding token_tracking_stream track_chunks after_text
  stream_cut line v chunks failure one blank done parsed not_object =
      let (e, raised) = track_line_raises line v fresh blank done parsed not_object in
      let read : read_chunk_guarded (track_line loads log_id) "" (append line "\n") fresh
          ≡ (err e, fresh) =
        guarded-eq-read_chunk (track_line loads log_id) skips "" (append line "\n") fresh tt
        ∙ read_chunk-feed (track_line loads log_id) "" (append line "\n") fresh tt
        ∙ feed_raises (track_line loads log_id) line e fresh fresh one raised in
      rw read
