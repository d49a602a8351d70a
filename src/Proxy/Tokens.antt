-- ===== src/Proxy/Tokens.antt =====
-- app/api/v1/routes/proxy.py: `_extract_tokens_from_chunk`, and the merge of its results into the
-- tokens that a stream has accumulated. `None` is JSON's `null`.
pub mod Counts
use ollama_proxy_server.Prelude.{
  ◌≡◌, Bool, true, false, not, ◌&&◌, Option, none, some, Result, ok, err, if◌then◌else◌,
}
use ollama_proxy_server.Raises.{◌>>=◌, ◌>>◌}
use ollama_proxy_server.Json.{
  Json, null, obj, contains_key, get, index, add, is_null, is_object, truthy,
}

pub record Tokens : Type 0 where
  pub prompt_tokens : Json
  pub completion_tokens : Json
  pub total_tokens : Json

abbrev pub no_tokens : Tokens
no_tokens = record { prompt_tokens = null; completion_tokens = null; total_tokens = null }

-- The three tests for Ollama's fields, and the total if there are both counts.
unfoldable pub read_counts : Json → Tokens → Result Tokens
read_counts chunk tokens = do
  has_eval ← contains_key "prompt_eval_count" chunk
  prompt ← if has_eval then get "prompt_eval_count" chunk else ok tokens.prompt_tokens
  has_count ← contains_key "prompt_count" chunk
  prompt' ← if has_count then get "prompt_count" chunk else ok prompt
  has_completion ← contains_key "eval_count" chunk
  completion ← if has_completion then get "eval_count" chunk else ok tokens.completion_tokens
  total ←
      if not (is_null prompt') && not (is_null completion)
      then add prompt' completion
      else ok tokens.total_tokens
  ok (record { prompt_tokens = prompt'; completion_tokens = completion; total_tokens = total })

unfoldable pub usage_counts : Json → Result Tokens
usage_counts usage = do
  prompt ← get "prompt_tokens" usage
  completion ← get "completion_tokens" usage
  total ← get "total_tokens" usage
  ok (record { prompt_tokens = prompt; completion_tokens = completion; total_tokens = total })

-- The OpenAI format: `usage`, where it is an object with something in it.
unfoldable pub read_usage : Json → Tokens → Result Tokens
unfolding usage_counts
read_usage chunk tokens = do
  has_usage ← contains_key "usage" chunk
  usage ← if has_usage then index "usage" chunk else ok null
  if truthy usage && is_object usage then usage_counts usage else ok tokens

unfoldable pub extract_tokens_from_chunk : Json → Result Tokens
extract_tokens_from_chunk chunk = do
  counted ← read_counts chunk no_tokens
  used ← read_usage chunk counted
  done ← get "done" chunk
  if truthy done then read_counts chunk used else ok used

-- `accumulated_tokens[key] = chunk_tokens[key]` where that is not None
abbrev pub prefer : Json → Json → Json
prefer old null = old
prefer old new = new

unfoldable pub accumulate : Tokens → Tokens → Tokens
accumulate acc tokens = record {
  prompt_tokens = prefer acc.prompt_tokens tokens.prompt_tokens;
  completion_tokens = prefer acc.completion_tokens tokens.completion_tokens;
  total_tokens = prefer acc.total_tokens tokens.total_tokens;
}
