-- ===== src/Vllm/ToolArgs.antt =====
-- app/core/vllm_translator.py: what `vllm_stream_to_ollama_stream` makes of the arguments of a
-- completed tool call.
use ollama_proxy_server.Prelude.{Bool, true, Option, some, String, Result, ok, err}
use ollama_proxy_server.Json.{Json, arr}
use ollama_proxy_server.Json.Dynamic.{get_if_in, join_value}
use ollama_proxy_server.Vllm.{Python}

module _ (py : Python) (tool_call_buffer : String) where
  -- A list of steps is joined, and its call is thinking even if the join raises.
  join_steps : Result String → Bool × String
  join_steps (ok args) = (true, args)
  join_steps (err e) = (true, tool_call_buffer)

  of_steps : Bool → Json → Option Json → Bool × String
  unfolding join_steps
  of_steps is_think_tool parsed_args (some (arr steps)) = join_steps (join_value "\n" (arr steps))
  of_steps is_think_tool parsed_args found = (is_think_tool, py.dumps_indented parsed_args)

  of_found : Bool → Json → Result (Option Json) → Bool × String
  unfolding of_steps
  of_found is_think_tool parsed_args (ok found) = of_steps is_think_tool parsed_args found
  of_found is_think_tool parsed_args (err e) = (is_think_tool, tool_call_buffer)

  of_parsed : Bool → Result Json → Bool × String
  unfolding of_found
  of_parsed is_think_tool (ok parsed_args) =
      of_found is_think_tool parsed_args (get_if_in "steps" parsed_args)
  of_parsed is_think_tool (err e) = (is_think_tool, tool_call_buffer)

  unfoldable pub format_args : Bool → Bool × String
  unfolding of_parsed
  format_args is_think_tool = of_parsed is_think_tool (py.loads tool_call_buffer)
