-- ===== src/Vllm/Stream.antt =====
-- app/core/vllm_translator.py: `vllm_stream_to_ollama_stream`, the generator that turns a stream of
-- OpenAI's events into Ollama's lines. Its variables are the Translator of Events; after `return` no
-- line is handled.
pub mod Division
pub mod Contents
use ollama_proxy_server.Prelude.{
  ℕ, zero, ◌+◌, ◌/◌, Bool, true, false, not, ◌&&◌, ◌||◌, Option, none, some, List, [], ◌∷◌, ◌++◌,
  String, Error, json_decode_error, index_error, Result, ok, err, Exec, continue, pure, lift,
  append, strip, replace, is_nil, str_eq, starts_with, contains, drop_chars, size, ℤ, pos,
  if◌then◌else◌,
}
use ollama_proxy_server.Exec.{◌>>=◌, ◌>>◌}
use ollama_proxy_server.Json.{
  Json, null, bool, int, str, arr, obj, Fields, end, truthy, contains_key, get,
}
use ollama_proxy_server.Json.Dynamic.{get_or, first_of, iterate, add_text, get_if_in, object}
use ollama_proxy_server.Lines.{read_chunk}
use ollama_proxy_server.Lines.Chunks.{read_all}
use ollama_proxy_server.Vllm.{Python, format, is_text}
use ollama_proxy_server.Vllm.ToolArgs.{format_args}
use ollama_proxy_server.Vllm.Events.{Translator, get_iso_timestamp, send, send_content, done_chunk}

-- `except Exception`, behind which the function goes on
pub caught : Exec Translator (Unit {0}) → Exec Translator (Unit {0})
caught m s = (ok tt, (m s).1)

abbrev pub is_skipped : Error → Bool
is_skipped (json_decode_error message) = true
is_skipped (index_error message) = true
is_skipped e = false

-- `except (json.JSONDecodeError, IndexError): continue`
unfoldable pub skip_bad : Result (Unit {0}) → Result (Unit {0})
skip_bad (ok u) = ok u
skip_bad (err e) = if is_skipped e then ok tt else err e

module _ (py : Python) (model_name : String) where
  stop : Exec Translator (Unit {0})
  stop s = (ok tt, record s { returned = true })

  -- the statements on the event that ends the stream
  unfoldable pub send_done : Exec Translator (Unit {0})
  unfolding stop
  send_done s =
      (do
        eval_count ←
            lift (get_or "completion_tokens" (int (pos (size s.total_eval_text / 4))) s.usage)
        prompt_eval_count ← lift (get_or "prompt_tokens" (int (pos 0)) s.usage)
        created_at ← get_iso_timestamp py null
        send py (
            done_chunk py model_name created_at eval_count prompt_eval_count
              (py.elapsed s.readings))
        stop)
        s

  start_tag : Json → String
  start_tag fn_name =
      if is_text "think" fn_name
      then "<think>"
      else append "<tool_call>\n" (append (format py fn_name) "(")

  -- `if fn_name and not in_tool_call`
  start_tool : Json → Json → Exec Translator (Unit {0})
  unfolding start_tag
  start_tool created_ts fn_name s =
      if truthy fn_name && not s.in_tool_call
      then send_content py model_name created_ts (str (start_tag fn_name))
          (record s { in_tool_call = true })
      else (ok tt, s)

  -- `if tool_call_part: tool_call_buffer += tool_call_part`
  add_part : Json → Exec Translator (Unit {0})
  add_part part s =
      if truthy part
      then continue (add_text s.tool_call_buffer part)
          (λ buffer t. (ok tt, record t { tool_call_buffer = buffer })) s
      else (ok tt, s)

  -- the body of the loop over the tool calls
  unfoldable pub tool_call : Json → Json → Exec Translator (Unit {0})
  unfolding start_tool add_part
  tool_call created_ts t_call = do
    function ← lift (get_or "function" (obj end) t_call)
    fn_name ← lift (get "name" function)
    start_tool created_ts fn_name
    part ← lift (get_or "arguments" (str "") function)
    add_part part

  each_call : Json → List Json → Exec Translator (Unit {0})
  unfolding tool_call
  each_call created_ts [] = pure tt
  each_call created_ts (t_call ∷ t_calls) = do
    tool_call created_ts t_call
    each_call created_ts t_calls

  tool_calls : Json → Option Json → Exec Translator (Unit {0})
  unfolding each_call
  tool_calls created_ts none = pure tt
  tool_calls created_ts (some v) = do items ← lift (iterate v); each_call created_ts items

  pub add_total : String → Exec Translator (Unit {0})
  add_total text s = (ok tt, record s { total_eval_text = append s.total_eval_text text })

  -- what a completed tool call yields: the thoughts and their closing tag, or the arguments
  send_args : Json → Bool × String → Exec Translator (Unit {0})
  unfolding add_total
  send_args created_ts (true, args) = do
    send_content py model_name created_ts (str args)
    send_content py model_name created_ts (str "</think>")
    add_total args
  send_args created_ts (false, args) = do
    send_content py model_name created_ts (str (append args ")\n</tool_call>\n"))
    add_total args

  -- the tool call is completed, whatever is raised on the way
  unfoldable pub complete_tool_call : Json → Exec Translator (Unit {0})
  unfolding send_args caught
  complete_tool_call created_ts s =
      let is_think_tool =
        contains "<think>" s.total_eval_text || not (starts_with s.tool_call_buffer "{") in
      let sent =
        caught (send_args created_ts (format_args py s.tool_call_buffer is_think_tool)) s in
      (ok tt, record sent.1 { tool_call_buffer = ""; in_tool_call = false })

  -- `if content := delta.get("content")`
  unfoldable pub regular_content : Json → Json → Exec Translator (Unit {0})
  regular_content created_ts delta = do
    content ← lift (get "content" delta)
    if truthy content
        then (λ s.
            continue (add_text s.total_eval_text content)
              (λ text t.
                send_content py model_name created_ts content (record t { total_eval_text = text }))
              s)
        else pure tt

  -- the content behind a completed tool call, where the delta has one
  after_tool_call : Json → Json → Exec Translator (Unit {0})
  unfolding regular_content
  after_tool_call created_ts delta = do
    here ← lift (contains_key "content" delta)
    if here then regular_content created_ts delta else pure tt

  completed_or_content : Json → Json → Json → Exec Translator (Unit {0})
  unfolding complete_tool_call after_tool_call regular_content
  completed_or_content created_ts delta finish_reason s =
      if s.in_tool_call && is_text "tool_calls" finish_reason
      then (do complete_tool_call created_ts; after_tool_call created_ts delta) s
      else regular_content created_ts delta s

  -- `if "usage" in data and data["usage"]`
  keep_usage : Option Json → Exec Translator (Unit {0})
  keep_usage none s = (ok tt, s)
  keep_usage (some usage) s = (ok tt, if truthy usage then record s { usage = usage } else s)

  -- `data["choices"][0]`, an empty object where there are no choices
  first_choice : Json → Result Json
  first_choice choices = if truthy choices then first_of choices else ok (obj end)

  -- the statements on the JSON of a line
  unfoldable pub handle_data : Json → Exec Translator (Unit {0})
  unfolding keep_usage first_choice tool_calls completed_or_content
  handle_data data_value = do
    usage ← lift (get_if_in "usage" data_value)
    keep_usage usage
    choices ← lift (get "choices" data_value)
    choice ← lift (first_choice choices)
    delta ← lift (get_or "delta" (obj end) choice)
    finish_reason ← lift (get "finish_reason" choice)
    created_ts ← lift (get "created" data_value)
    calls ← lift (get_if_in "tool_calls" delta)
    tool_calls created_ts calls
    completed_or_content created_ts delta finish_reason

  parse_data : String → Exec Translator (Unit {0})
  unfolding handle_data
  parse_data data_str = do data_value ← lift (py.loads data_str); handle_data data_value

  -- the `try` of a line with data
  unfoldable pub try_data : String → Exec Translator (Unit {0})
  unfolding parse_data skip_bad
  try_data data_str s =
      let (r, s') = parse_data data_str s in
      (if is_nil data_str then ok tt else skip_bad r, if is_nil data_str then s else s')

  -- the body of `for line in lines`
  unfoldable pub handle_line : String → Exec Translator (Unit {0})
  unfolding send_done try_data
  handle_line line =
      if is_nil (strip line)
      then pure tt
      else if str_eq (strip line) "data: [DONE]"
      then send_done
      else if starts_with line "data: "
      then try_data (strip (drop_chars 6 line))
      else pure tt

  unfoldable pub translate_line : String → Exec Translator (Unit {0})
  unfolding handle_line
  translate_line line s = if s.returned then (ok tt, s) else handle_line line s

  -- what is left in the buffer at the end
  unfoldable pub translate_rest : String → Exec Translator (Unit {0})
  unfolding send_done
  translate_rest buffer s =
      if not s.returned && str_eq (strip (strip buffer)) "data: [DONE]"
      then send_done s
      else (ok tt, s)

  unfoldable pub vllm_stream_to_ollama_stream : List String → Exec Translator (Unit {0})
  unfolding translate_line translate_rest
  vllm_stream_to_ollama_stream chunks = do
    buffer ← read_all (read_chunk translate_line) "" chunks
    translate_rest buffer
