-- ===== src/Vllm/Events.antt =====
-- app/core/vllm_translator.py: the variables of `vllm_stream_to_ollama_stream`, and the lines that it
-- yields. Beside the variables a Translator holds what has been yielded, the readings of the clock, and
-- whether `return` has been reached. The name of the model is a text.
use ollama_proxy_server.Prelude.{
  ℕ, ◌+◌, Bool, true, false, List, [], ◌∷◌, ◌++◌, String, Result, ok, err, Exec, append, replace, ℤ,
}
use ollama_proxy_server.Exec.{◌>>=◌}
use ollama_proxy_server.Json.{Json, null, bool, int, str, obj, end}
use ollama_proxy_server.Json.Dynamic.{object}
use ollama_proxy_server.Vllm.{Python}

pub record Translator : Type 0 where
  pub tool_call_buffer : String
  pub in_tool_call : Bool
  pub total_eval_text : String
  pub usage : Json
  pub readings : ℕ
  pub yielded : List String
  pub returned : Bool

abbrev pub fresh : Translator
fresh = record {
  tool_call_buffer = "";
  in_tool_call = false;
  total_eval_text = "";
  usage = obj end;
  readings = 0;
  yielded = [];
  returned = false;
}

-- A text behind the `isoformat` of a time in UTC
abbrev with_z : Result String → Result String
with_z (ok stamp) = ok (replace "+00:00" "Z" stamp)
with_z (err e) = err e

module _ (py : Python) where
  unfoldable pub get_iso_timestamp : Json → Exec Translator String
  get_iso_timestamp null s =
      (ok (replace "+00:00" "Z" (py.now s.readings)), record s { readings = s.readings + 1 })
  get_iso_timestamp ts s = (with_z (py.fromtimestamp ts), s)

  -- `yield (json.dumps(chunk) + "\n").encode("utf-8")`
  unfoldable pub send : Json → Exec Translator (Unit {0})
  send chunk s = (ok tt, record s { yielded = s.yielded ++ append (py.dumps chunk) "\n" ∷ [] })

  module _ (model_name : String) where
    -- an answer of the assistant that is not the last
    unfoldable pub content_chunk : String → Json → Json
    content_chunk created_at content = object (
        ("model", str model_name)
        ∷ ("created_at", str created_at)
        ∷ ("message", object (("role", str "assistant") ∷ ("content", content) ∷ []))
        ∷ ("done", bool false)
        ∷ [])

    unfoldable pub send_content : Json → Json → Exec Translator (Unit {0})
    unfolding get_iso_timestamp send content_chunk
    send_content created_ts content = do
      created_at ← get_iso_timestamp created_ts
      send (content_chunk created_at content)

    unfoldable pub done_chunk : String → Json → Json → ℤ → Json
    done_chunk created_at eval_count prompt_eval_count eval_duration = object (
        ("model", str model_name)
        ∷ ("created_at", str created_at)
        ∷ ("message", object (("role", str "assistant") ∷ ("content", str "") ∷ []))
        ∷ ("done", bool true)
        ∷ ("eval_count", eval_count)
        ∷ ("prompt_eval_count", prompt_eval_count)
        ∷ ("eval_duration", int eval_duration)
        ∷ [])
