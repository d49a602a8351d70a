-- ===== src/Services/Parser.antt =====
-- app/core/streaming_parser.py: `StreamingJSONParser`. A text stands for bytes, one character for each.
-- `loads` is `json.loads`, and the values that are yielded are the state.
pub mod Ends
use ollama_proxy_server.Prelude.{
  ℕ, zero, suc, Bool, true, false, Option, none, some, List, [], ◌∷◌, ◌++◌, String, Error,
  json_decode_error, Result, ok, err, Exec, pure, lift, append, size, ◌==◌, leb, ◌&&◌, ◌||◌,
  if◌then◌else◌,
}
use Prim.Native.Char.{Char, code}
use ollama_proxy_server.Exec.{◌>>=◌, ◌>>◌}
use ollama_proxy_server.Json.{Json}

before_feed : Char → Option (String × String) → Option (String × String)
before_feed c none = none
before_feed c (some (line, rest)) = some (String.◌∷◌ c line, rest)

-- `buffer.split(b"\n", 1)`, none where there is no line feed
unfoldable pub split_once : String → Option (String × String)
unfolding before_feed
split_once String.[] = none
split_once (String.◌∷◌ c s) =
    let later = before_feed c (split_once s) in if code c == 10 then some ("", s) else later

-- The white space of `bytes.strip`
unfoldable pub is_ascii_space : Char → Bool
is_ascii_space c = leb 9 (code c) && leb (code c) 13 || code c == 32

-- `not line.strip()`: nothing but white space
unfoldable pub is_blank : String → Bool
unfolding is_ascii_space
is_blank String.[] = true
is_blank (String.◌∷◌ c s) = is_ascii_space c && is_blank s

module _ (loads : String → Result Json) where
  yield_value : Result Json → Exec (List Json) (Unit {0})
  yield_value (ok value) yielded = (ok tt, yielded ++ value ∷ [])
  yield_value (err (json_decode_error message)) yielded = (ok tt, yielded)
  yield_value (err e) yielded = (err e, yielded)

  -- what is done with a line; `bytes.strip` takes white space of ASCII only
  unfoldable pub parse_line : String → Exec (List Json) (Unit {0})
  unfolding yield_value is_blank
  parse_line line = if is_blank line then pure tt else yield_value (loads line)

  -- `while b"\n" in buffer`, on fuel
  unfoldable pub drain : ℕ → String → Exec (List Json) String
  drain zero buffer = pure buffer
  drain (suc fuel) buffer = elim (split_once buffer) [
    | none ↦ pure buffer
    | some cut ↦ parse_line cut.0 >> drain fuel cut.1
  ]

  unfoldable pub parse_chunk : String → String → Exec (List Json) String
  parse_chunk buffer chunk = drain (size (append buffer chunk)) (append buffer chunk)

  unfoldable pub parse_stream : String → List String → Exec (List Json) String
  parse_stream buffer [] = pure buffer
  parse_stream buffer (chunk ∷ chunks) = do
    kept ← parse_chunk buffer chunk
    parse_stream kept chunks
