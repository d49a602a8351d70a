-- ===== src/Vllm/Stream/Contents.antt =====
-- What the client gets from a stream of events with plain content: the contents in their order, one
-- line for each, and a last line.
use mathlib.Core.List.{append-nil as ++-nil, append_assoc as ++-assoc}
use text.Mathlib.TextLemmas.{append-nil, nil-append, append_assoc}
use ollama_proxy_server.Prelude.{
  ◌+◌, ◌/◌, ◌≡◌, refl, ◌∙◌, sym, ap, ◌⊎◌, inl, inr, true, false, none, some, List, [], ◌∷◌, ◌++◌,
  String, ok, append, strip, replace, is_nil, str_eq, starts_with, drop_chars, size, ℤ, pos, All,
}
use ollama_proxy_server.Exec.{◌>>=◌, bind_ok}
use ollama_proxy_server.Json.{
  null, int, str, arr, obj, Items, cons, Fields, end, find, truthy, contains_key, get, index,
}
use ollama_proxy_server.Json.Dynamic.{get_or, get_if_in, first_of, add_text}
use ollama_proxy_server.Lines.Split.{OneLine}
use ollama_proxy_server.Lines.{read_chunk}
use ollama_proxy_server.Lines.Chunks.{read_all, concat, read_chunk-feed, feed-newline}
use ollama_proxy_server.Vllm.{Python}
use ollama_proxy_server.Vllm.Stream.Division.{vllm_stream-concat, vllm_stream_done}
use ollama_proxy_server.Vllm.Events.{
  Translator, fresh, content_chunk, done_chunk, send_content, get_iso_timestamp, send,
}
use ollama_proxy_server.Vllm.Stream.{
  stop, send_done, keep_usage, first_choice, tool_calls, completed_or_content, handle_line,
  parse_data, skip_bad, handle_data, try_data, regular_content, translate_line,
  vllm_stream_to_ollama_stream,
}

-- An event of a stream: its fields, its time with the text for it, its first choice with the others, and
-- the choice's delta.
pub record Event : Type 0 where
  pub fields : Fields
  pub created : ℤ
  pub stamp : String
  pub choice : Fields
  pub more : Items
  pub delta : Fields
  pub content : String

module _ (py : Python) (model_name : String) where
  -- The event reports no usage, or null for it, and no tool call, but a time that Python can write and
  -- a content that is not empty.
  abbrev pub IsContent : Event → Type 0
  IsContent e =
      ((find "usage" e.fields ≡ none) ⊎ (find "usage" e.fields ≡ some null))
      × ((find "created" e.fields ≡ some (int e.created))
          × ((py.fromtimestamp (int e.created) ≡ ok e.stamp)
              × ((find "choices" e.fields ≡ some (arr (cons (obj e.choice) e.more)))
                  × ((find "delta" e.choice ≡ some (obj e.delta))
                      × ((find "tool_calls" e.delta ≡ none)
                          × ((find "content" e.delta ≡ some (str e.content))
                              × (is_nil e.content ≡ false)))))))

  -- The line for an event
  abbrev pub line_for : Event → String
  line_for e =
      append (py.dumps (content_chunk py model_name (replace "+00:00" "Z" e.stamp) (str e.content)))
        "\n"

  -- What an event with a content adds to the variables
  abbrev pub say : Event → Translator → Translator
  say e s = record s {
    total_eval_text = append s.total_eval_text e.content;
    yielded = s.yielded ++ line_for e ∷ [];
  }

  handle_content :
      (e : Event) (s : Translator)
      → IsContent e
      → s.in_tool_call ≡ false
      → handle_data py model_name (obj e.fields) s ≡ (ok tt, say e s)
  unfolding handle_data keep_usage first_choice tool_calls completed_or_content regular_content
      send_content get_iso_timestamp send get_or get_if_in first_of contains_key get index truthy
      ◌>>=◌ add_text
  handle_content e s
        (inl no_usage, (time, (stamp, (choices, (delta, (no_calls, (content, full))))))) outside =
      simp (no_usage, time, stamp, choices, delta, no_calls, content, full, outside)
  handle_content e s
        (inr null_usage, (time, (stamp, (choices, (delta, (no_calls, (content, full))))))) outside =
      simp (null_usage, time, stamp, choices, delta, no_calls, content, full, outside)

  -- The line is a complete one that carries the event behind `data: `.
  abbrev pub IsEventLine : String × Event → Type 0
  IsEventLine (line, e) =
      OneLine line
      × ((is_nil (strip line) ≡ false)
          × ((str_eq (strip line) "data: [DONE]" ≡ false)
              × ((starts_with line "data: " ≡ true)
                  × ((is_nil (strip (drop_chars 6 line)) ≡ false)
                      × ((py.loads (strip (drop_chars 6 line)) ≡ ok (obj e.fields))
                          × IsContent e)))))

  line_content :
      (line : String) (e : Event) (s : Translator)
      → IsEventLine (line, e)
      → s.returned ≡ false
      → s.in_tool_call ≡ false
      → translate_line py model_name line s ≡ (ok tt, say e s)
  unfolding translate_line handle_line try_data parse_data skip_bad ◌>>=◌
  line_content line e s (one, (full, (no_done, (prefix, (some_data, (parsed, h)))))) open_state
        outside =
      simp (full, no_done, prefix, some_data, parsed, open_state, handle_content e s h outside)

  abbrev pub say_all : List (String × Event) → Translator → Translator
  say_all [] s = s
  say_all ((line, e) ∷ lines) s = say_all lines (say e s)

  -- The chunks that are a line each
  abbrev pub line_chunks : List (String × Event) → List String
  line_chunks [] = []
  line_chunks ((line, e) ∷ lines) = append line "\n" ∷ line_chunks lines

  read_contents :
      (lines : List (String × Event)) (s : Translator)
      → All IsEventLine lines
      → s.returned ≡ false
      → s.in_tool_call ≡ false
      → read_all (read_chunk (translate_line py model_name)) "" (line_chunks lines) s
        ≡ (ok "", say_all lines s)
  read_contents [] s h open_state outside = refl
  read_contents ((line, e) ∷ lines) s (h, hs) open_state outside =
      bind_ok _ _ s (say e s) "" (
        read_chunk-feed (translate_line py model_name) "" (append line "\n") s tt
        ∙ feed-newline (translate_line py model_name) line s h.0
        ∙ bind_ok _ _ s (say e s) tt (line_content line e s h open_state outside))
      ∙ read_contents lines (say e s) hs open_state outside

  -- The lines for contents
  abbrev pub spoken : List (String × Event) → List String
  spoken [] = []
  spoken ((line, e) ∷ lines) = line_for e ∷ spoken lines

  abbrev pub contents : List (String × Event) → List String
  contents [] = []
  contents ((line, e) ∷ lines) = e.content ∷ contents lines

  say_all-yielded :
      (lines : List (String × Event)) (s : Translator)
      → (say_all lines s).yielded ≡ s.yielded ++ spoken lines
  say_all-yielded [] s = sym (++-nil _)
  say_all-yielded ((line, e) ∷ lines) s =
      say_all-yielded lines (say e s) ∙ ++-assoc s.yielded (line_for e ∷ []) (spoken lines)

  say_all-total :
      (lines : List (String × Event)) (s : Translator)
      → (say_all lines s).total_eval_text ≡ append s.total_eval_text (concat (contents lines))
  say_all-total [] s = sym (append-nil _)
  say_all-total ((line, e) ∷ lines) s = say_all-total lines (say e s) ∙ append_assoc _ _ _

  say_all-same :
      (lines : List (String × Event)) (s : Translator)
      → ((say_all lines s).usage ≡ s.usage)
        × (((say_all lines s).returned ≡ s.returned) × ((say_all lines s).readings ≡ s.readings))
  say_all-same [] s = (refl, (refl, refl))
  say_all-same ((line, e) ∷ lines) s = say_all-same lines (say e s)

  -- The last line, from the total of the contents and the first reading of the clock
  abbrev pub last_line_of : List (String × Event) → String
  last_line_of lines =
      append
        (py.dumps (
          done_chunk py model_name (replace "+00:00" "Z" (py.now 0))
            (int (pos (size (concat (contents lines)) / 4))) (int (pos 0)) (py.elapsed 0)))
        "\n"

  stopped : List (String × Event) → Translator → Translator
  stopped lines t = record t {
    readings = t.readings + 1;
    yielded = t.yielded ++ last_line_of lines ∷ [];
    returned = true;
  }

  last_of_contents :
      (lines : List (String × Event)) (t : Translator)
      → t.usage ≡ obj end
      → t.readings ≡ 0
      → t.total_eval_text ≡ concat (contents lines)
      → send_done py model_name t ≡ (ok tt, stopped lines t)
  unfolding send_done stopped stop get_iso_timestamp send get_or ◌>>=◌ find
  last_of_contents lines t no_usage readings total = simp (no_usage, readings, total)

  -- For lines that carry events with contents, each with its time and without a tool call or a usage,
  -- followed by the event that ends a stream and cut into chunks anywhere, the client gets one line for
  -- each content, in their order and with the event's time, and a last line that counts a token for four
  -- characters; what follows the event is not read.
  pub vllm_stream_contents :
      (lines : List (String × Event)) (rest chunks : List String)
      → All IsEventLine lines
      → concat chunks ≡ concat (line_chunks lines ++ "data: [DONE]\n" ∷ rest)
      → ((vllm_stream_to_ollama_stream py model_name chunks fresh).0 ≡ ok tt)
        × ((vllm_stream_to_ollama_stream py model_name chunks fresh).1.yielded
            ≡ spoken lines ++ last_line_of lines ∷ [])
  unfolding stopped
  vllm_stream_contents lines rest chunks h cut =
      let (usage, (returned, readings)) = say_all-same lines fresh in
      let ended =
        vllm_stream-concat py model_name chunks fresh
        ∙ ap (λ text. vllm_stream_to_ollama_stream py model_name (text ∷ []) fresh) cut
        ∙ sym
            (vllm_stream-concat py model_name (line_chunks lines ++ "data: [DONE]\n" ∷ rest) fresh)
        ∙ vllm_stream_done py model_name (line_chunks lines) rest fresh (say_all lines fresh)
            (stopped lines (say_all lines fresh)) (read_contents lines fresh h refl refl) returned
            (last_of_contents lines (say_all lines fresh) usage readings
              (say_all-total lines fresh ∙ nil-append _)) in
      (
        ap (λ p. p.0) ended,
        ap (λ p. p.1.yielded) ended
            ∙ ap (λ ys. ys ++ last_line_of lines ∷ []) (say_all-yielded lines fresh),
      )
