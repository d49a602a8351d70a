-- ===== src/Proxy/Tracking.antt =====
-- app/api/v1/routes/proxy.py: `_wrap_response_for_token_tracking`, the generator that passes a
-- backend's stream on and reads the token counts from it. A chunk is the text of bytes that are
-- UTF-8, or the bytes that are not. `loads` is `json.loads`, `none` for a JSONDecodeError. What the
-- generator does outside of itself is its state: the chunks that it has yielded, and the token
-- updates that it has scheduled. The headers of the wrapped response are left out.
pub mod Passing
pub mod Complete
pub mod Reports
pub mod Division
use ollama_proxy_server.Prelude.{
  ℕ, ◌≡◌, Bool, true, false, not, ◌&&◌, ◌||◌, Option, none, some, List, [], ◌∷◌, ◌++◌, String,
  Error, Result, ok, err, Exec, continue, pure, raise, lift, str_eq, strip, is_nil, starts_with,
  drop_chars, if◌then◌else◌, ◌==◌,
}
use ollama_proxy_server.Exec.{◌>>=◌, ◌>>◌}
use ollama_proxy_server.Json.{Json, get, truthy}
use ollama_proxy_server.Lines.{read_chunk_guarded}
use ollama_proxy_server.Proxy.Tokens.{Tokens, no_tokens, extract_tokens_from_chunk, accumulate}

pub data Chunk : Type 0 where
  utf8 : String → Chunk
  undecodable : List ℕ → Chunk

-- The state that the lines change.
pub record Tracker : Type 0 where
  pub accumulated_tokens : Tokens
  pub tokens_finalized : Bool
  pub scheduled : List Tokens

abbrev pub fresh : Tracker
fresh = record { accumulated_tokens = no_tokens; tokens_finalized = false; scheduled = [] }

-- `if log_id`
abbrev pub has_log : Option ℕ → Bool
has_log none = false
has_log (some n) = not (n == 0)

-- `asyncio.create_task(_update_log_with_tokens_async(…))`, at most once
unfoldable pub finalize : Option ℕ → Bool → Tracker → Tracker
finalize log_id done tracker =
    if done && has_log log_id && not tracker.tokens_finalized
    then record tracker {
      tokens_finalized = true;
      scheduled = tracker.scheduled ++ tracker.accumulated_tokens ∷ [];
    }
    else tracker

-- The text behind `data: `
unfoldable pub data_of : String → String
data_of line = if starts_with line "data: " then drop_chars 6 line else line

module _ (loads : String → Option Json) (log_id : Option ℕ) where
  -- what is done with the JSON of a line
  pub track_value : Json → Exec Tracker (Unit {0})
  track_value value tracker =
      continue (extract_tokens_from_chunk value)
        (λ tokens tracker'.
          let merged = record tracker' {
            accumulated_tokens = accumulate tracker'.accumulated_tokens tokens;
          } in
          continue (get "done" value) (λ done t. (ok tt, finalize log_id (truthy done) t)) merged)
        tracker

  track_parsed : Option Json → Exec Tracker (Unit {0})
  track_parsed none = pure tt
  track_parsed (some value) = track_value value

  -- the body of `for line in lines`
  unfoldable pub track_line : String → Exec Tracker (Unit {0})
  unfolding track_parsed
  track_line line =
      if is_nil (strip line)
      then pure tt
      else if starts_with line "data: " && str_eq (data_of line) "[DONE]"
      then pure tt
      else track_parsed (loads (data_of line))

  -- what is left in the buffer at the end; the flag is set before the extraction, which may raise
  track_rest_value : Json → Exec Tracker (Unit {0})
  track_rest_value value tracker =
      continue (get "done" value)
        (λ done t.
          if truthy done && has_log log_id && not t.tokens_finalized
          then continue (extract_tokens_from_chunk value)
              (λ tokens t'.
                let merged = accumulate t'.accumulated_tokens tokens in
                (
                  ok tt,
                  record t' {
                    accumulated_tokens = merged;
                    scheduled = t'.scheduled ++ merged ∷ [];
                  },
                ))
              (record t { tokens_finalized = true })
          else (ok tt, t))
        tracker

  track_rest_parsed : Option Json → Exec Tracker (Unit {0})
  track_rest_parsed none = pure tt
  track_rest_parsed (some value) = track_rest_value value

  unfoldable pub track_rest : String → Exec Tracker (Unit {0})
  unfolding track_rest_parsed track_rest_value
  track_rest buffer =
      if is_nil (strip buffer)
      then pure tt
      else if is_nil (data_of buffer) || str_eq (data_of buffer) "[DONE]"
      then pure tt
      else track_rest_parsed (loads (data_of buffer))

  -- the rest of the loop, behind a chunk whose text has been yielded and read
  pub after_text :
      String
      → (String → Tracker → List Chunk × (Result String × Tracker))
      → Result String
      → Tracker
      → List Chunk × (Result String × Tracker)
  after_text text next (ok kept) tracker =
      let (yielded, end) = next kept tracker in (utf8 text ∷ yielded, end)
  after_text text next (err e) tracker = (utf8 text ∷ [], (err e, tracker))

  -- `async for chunk in backend_response.aiter_raw()`: the chunks yielded, then the buffer that is
  -- left, or the exception that has ended the loop, and the state. `failure` is the backend's own.
  pub track_chunks :
      Option Error → String → List Chunk → Tracker → List Chunk × (Result String × Tracker)
  track_chunks none buffer [] tracker = ([], (ok buffer, tracker))
  track_chunks (some e) buffer [] tracker = ([], (err e, tracker))
  track_chunks failure buffer (undecodable bytes ∷ chunks) tracker =
      let (yielded, end) = track_chunks failure buffer chunks tracker in
      (undecodable bytes ∷ yielded, end)
  track_chunks failure buffer (utf8 text ∷ chunks) tracker =
      let (r, tracker') = read_chunk_guarded track_line buffer text tracker in
      after_text text (λ kept t. track_chunks failure kept chunks t) r tracker'

  pub finish : Result String → Tracker → Tracker
  finish (ok buffer) tracker = (track_rest buffer tracker).1
  finish (err e) tracker = tracker

  -- What the client receives, and the state at the end; the outer `except` drops the exception.
  unfoldable pub token_tracking_stream : List Chunk → Option Error → List Chunk × Tracker
  token_tracking_stream chunks failure =
      let (yielded, (r, tracker)) = track_chunks failure "" chunks fresh in
      (yielded, finish r tracker)
