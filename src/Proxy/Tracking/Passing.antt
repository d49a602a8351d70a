-- ===== src/Proxy/Tracking/Passing.antt =====
-- What `token_tracking_stream` passes on to the client.
use ollama_proxy_server.Prelude.{
  ℕ, ◌≡◌, refl, ap, Option, none, some, List, [], ◌∷◌, ◌++◌, String, Error, Result, ok, err,
}
use ollama_proxy_server.Json.{Json}
use ollama_proxy_server.Proxy.Tracking.{
  Chunk, utf8, undecodable, Tracker, fresh, after_text, track_chunks, token_tracking_stream,
}

module _ (loads : String → Option Json) (log_id : Option ℕ) where
  after_text-prefix :
      (text : String) (next : String → Tracker → List Chunk × (Result String × Tracker))
      (r : Result String) (t : Tracker) (chunks : List Chunk)
      → ((kept : String) (t' : Tracker) → (lost : List Chunk) × ((next kept t').0 ++ lost ≡ chunks))
      → (lost : List Chunk) × ((after_text loads log_id text next r t).0 ++ lost
          ≡ utf8 text ∷ chunks)
  unfolding after_text
  after_text-prefix text next (ok kept) t chunks h =
      let (lost, e) = h kept t in (lost, ap (◌∷◌ (utf8 text)) e)
  after_text-prefix text next (err e) t chunks h = (chunks, refl)

  track_chunks-prefix :
      (failure : Option Error) (buffer : String) (chunks : List Chunk) (t : Tracker)
      → (lost : List Chunk) × ((track_chunks loads log_id failure buffer chunks t).0 ++ lost
          ≡ chunks)
  unfolding track_chunks
  track_chunks-prefix none buffer [] t = ([], refl)
  track_chunks-prefix (some e) buffer [] t = ([], refl)
  track_chunks-prefix failure buffer (undecodable bytes ∷ chunks) t =
      let (lost, e) = track_chunks-prefix failure buffer chunks t in
      (lost, ap (◌∷◌ (undecodable bytes)) e)
  track_chunks-prefix failure buffer (utf8 text ∷ chunks) t =
      after_text-prefix text _ _ _ chunks (λ kept t'. track_chunks-prefix failure kept chunks t')

  -- The client receives the backend's chunks as they are and in their order, possibly not all of them.
  pub stream_prefix :
      (chunks : List Chunk) (failure : Option Error)
      → (lost : List Chunk) × ((token_tracking_stream loads log_id chunks failure).0 ++ lost
          ≡ chunks)
  unfolding token_tracking_stream
  stream_prefix chunks failure = track_chunks-prefix failure "" chunks fresh
