-- ===== src/Vllm.antt =====
-- app/core/vllm_translator.py and `_proxy_to_vllm` of app/api/v1/routes/proxy.py: the adapter that
-- serves requests in Ollama's format from a backend with OpenAI's interface.
pub mod Request
pub mod ToolArgs
pub mod Events
pub mod Stream
pub mod Response
pub mod Route
pub mod Failover
pub mod Generator
use Prim.Native.Char.{Char}
use ollama_proxy_server.Prelude.{ℕ, Bool, false, String, Result, ℤ, str_eq}
use ollama_proxy_server.Json.{Json, str}

-- What the adapter takes from Python and its standard library.
pub record Python : Type 0 where
  -- `json.loads`, `json.dumps` and `json.dumps(v, indent=2)`
  pub loads : String → Result Json
  pub dumps : Json → String
  pub dumps_indented : Json → String
  -- `str(v)` for a value that is no text
  pub show : Json → String
  -- `datetime.fromtimestamp(ts, tz=timezone.utc).isoformat()`
  pub fromtimestamp : Json → Result String
  -- `datetime.now(timezone.utc).isoformat()` at its n-th reading
  pub now : ℕ → String
  -- the nanoseconds between two readings of the monotonic clock
  pub elapsed : ℕ → ℤ
  -- `int(v)` and `s.isdigit()`
  pub int_of : Json → Result ℤ
  pub is_digit : String → Bool
  -- a character that `\w` matches
  pub is_word : Char → Bool

-- `f"{v}"`
unfoldable pub format : Python → Json → String
format py (str s) = s
format py v = py.show v

-- `v == "…"`
abbrev pub is_text : String → Json → Bool
is_text key (str s) = str_eq s key
is_text key v = false
