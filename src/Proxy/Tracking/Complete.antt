-- ===== src/Proxy/Tracking/Complete.antt =====
-- When `token_tracking_stream` passes on each chunk: where it can read each line of the stream.
use ollama_proxy_server.Prelude.{
  ℕ, ◌≡◌, refl, ◌∙◌, ap, Bool, true, false, ◌&&◌, ◌==◌, Option, none, some, List, [], ◌∷◌, map,
  String, Result, ok, err, continue, str_eq, is_nil, strip, starts_with, append, All, if◌then◌else◌,
}
use Prim.Native.Char.{code}
use ollama_proxy_server.Exec.{◌>>=◌, ◌>>◌}
use ollama_proxy_server.Json.{Json}
use ollama_proxy_server.Lines.{read_chunk_guarded}
use ollama_proxy_server.Lines.Chunks.{feed, read_all, concat}
use ollama_proxy_server.Lines.Guarded.{read_all_guarded-feed}
use ollama_proxy_server.Lines.Keeps.{Returns, if-Returns}
use ollama_proxy_server.Proxy.Tokens.{Tokens, extract_tokens_from_chunk}
use ollama_proxy_server.Proxy.Tokens.Counts.{get_of_extract}
use ollama_proxy_server.Proxy.Tracking.{
  utf8, Tracker, fresh, track_value, track_parsed, track_line, after_text, track_chunks,
  token_tracking_stream, data_of,
}
use ollama_proxy_server.Proxy.Tracking.Division.{skips}

-- The lines of a text that a line feed ends, the first of them behind what is in the buffer
abbrev pub complete_lines : String → String → List String
complete_lines buffer String.[] = []
complete_lines buffer (String.◌∷◌ c s) =
    let closed = buffer ∷ complete_lines "" s in
    let longer = complete_lines (append buffer (String.◌∷◌ c String.[])) s in
    if code c == 10 then closed else longer

module _ (loads : String → Option Json) (log_id : Option ℕ) where
  -- If the line is JSON, its token counts can be read.
  abbrev pub IsReadable : String → Type 0
  IsReadable line =
      (v : Json)
      → loads (data_of line) ≡ some v
      → (tokens : Tokens) × (extract_tokens_from_chunk v ≡ ok tokens)

  track_value-Returns :
      (v : Json) (tokens : Tokens)
      → extract_tokens_from_chunk v ≡ ok tokens
      → Returns (track_value loads log_id v)
  unfolding track_value
  track_value-Returns v tokens e s =
      let (done, d) = get_of_extract "done" v tokens e in rw (e, d) (tt, refl)

  track_line-Returns : (line : String) → IsReadable line → Returns (track_line loads log_id line)
  unfolding track_line
  track_line-Returns line readable =
      if-Returns (is_nil (strip line)) _ _ (λ s. (tt, refl))
        (if-Returns (starts_with line "data: " && str_eq (data_of line) "[DONE]") _ _
          (λ s. (tt, refl)) (parsed (loads (data_of line)) readable))
    where
      parsed :
          (o : Option Json)
          → ((v : Json)
              → o ≡ some v
              → (tokens : Tokens) × (extract_tokens_from_chunk v ≡ ok tokens))
          → Returns (track_parsed loads log_id o)
      parsed none h t = (tt, refl)
      parsed (some v) h t = let (tokens, e) = h v refl in track_value-Returns v tokens e t

  feed_returns :
      (buffer text : String) (t : Tracker)
      → All IsReadable (complete_lines buffer text)
      → (kept : String) × ((feed (track_line loads log_id) buffer text t).0 ≡ ok kept)
  unfolding feed ◌>>=◌
  feed_returns buffer String.[] t h = (buffer, refl)
  feed_returns buffer (String.◌∷◌ c s) t h =
      go (code c == 10) h (λ t' r. feed_returns "" s t' r)
        (λ r. feed_returns (append buffer (String.◌∷◌ c String.[])) s t r)
    where
      go :
          (ends : Bool)
          → All IsReadable (
              if ends
              then buffer ∷ complete_lines "" s
              else complete_lines (append buffer (String.◌∷◌ c String.[])) s)
          → ((t' : Tracker)
              → All IsReadable (complete_lines "" s)
              → (kept : String) × ((feed (track_line loads log_id) "" s t').0 ≡ ok kept))
          → (All IsReadable (complete_lines (append buffer (String.◌∷◌ c String.[])) s)
              → (kept : String) × ((feed
                    (track_line loads log_id)
                    (append buffer (String.◌∷◌ c String.[]))
                    s
                    t).0
                  ≡ ok kept))
          → (kept : String) × (((if ends
                  then track_line loads log_id buffer >> feed (track_line loads log_id) "" s
                  else feed (track_line loads log_id) (append buffer (String.◌∷◌ c String.[])) s)
                t).0
              ≡ ok kept)
      go true readable closed longer =
          let (u, e) = track_line-Returns buffer readable.0 t in rw e (closed _ readable.1)
      go false readable closed longer = longer readable

  track_chunks_complete :
      (texts : List String) (buffer kept : String) (t : Tracker)
      → (read_all (read_chunk_guarded (track_line loads log_id)) buffer texts t).0 ≡ ok kept
      → (track_chunks loads log_id none buffer (map utf8 texts) t).0 ≡ map utf8 texts
  unfolding track_chunks after_text ◌>>=◌
  track_chunks_complete [] buffer kept t h = refl
  track_chunks_complete (text ∷ texts) buffer kept t h =
      go (read_chunk_guarded (track_line loads log_id) buffer text t).0 _ h
        (λ k t' q. track_chunks_complete texts k kept t' q)
    where
      go :
          (r : Result String) (t' : Tracker)
          → (continue r (λ k. read_all (read_chunk_guarded (track_line loads log_id)) k texts) t').0
            ≡ ok kept
          → ((k : String) (t' : Tracker)
              → (read_all (read_chunk_guarded (track_line loads log_id)) k texts t').0 ≡ ok kept
              → (track_chunks loads log_id none k (map utf8 texts) t').0 ≡ map utf8 texts)
          → (after_text loads log_id text
              (λ k t''. track_chunks loads log_id none k (map utf8 texts) t'')
              r
              t').0
            ≡ utf8 text ∷ map utf8 texts
      go (ok k) t' q rest = ap (◌∷◌ (utf8 text)) (rest k t' q)
      go (err e) t' q rest = absurd cc

  -- Where the chunks are texts, each complete line of the stream that is JSON has readable token counts,
  -- and the backend does not fail, the client receives every chunk.
  pub stream_complete :
      (texts : List String)
      → All IsReadable (complete_lines "" (concat texts))
      → (token_tracking_stream loads log_id (map utf8 texts) none).0 ≡ map utf8 texts
  unfolding token_tracking_stream
  stream_complete texts readable =
      let (kept, e) = feed_returns "" (concat texts) fresh readable in
      track_chunks_complete texts "" kept fresh (
        ap (λ p. p.0)
          (read_all_guarded-feed (track_line loads log_id) (skips loads log_id) "" texts fresh tt)
        ∙ e)
