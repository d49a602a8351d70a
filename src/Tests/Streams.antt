-- ===== src/Tests/Streams.antt =====
-- The reading of streams at two chunks of an answer.
use ollama_proxy_server.Prelude.{
  All, str_eq, if◌then◌else◌, starts_with, strip, ◌+ℤ◌, ◌≤◌, ◌≡◌, refl, subst, true, false, Option,
  none, some, some-injective, List, [], ◌∷◌, ◌++◌, map, String, ok, Exec, length, pos, arith,
}
use ollama_proxy_server.Json.{find, Json, bool, int, obj, field, end, Fields}
use ollama_proxy_server.Lines.{read_chunk}
use ollama_proxy_server.Lines.Chunks.{concat, read_all, read_all-concat}
use ollama_proxy_server.Proxy.Tokens.{Tokens, extract_tokens_from_chunk}
use ollama_proxy_server.Proxy.Tokens.Counts.{extract_final_chunk}
use ollama_proxy_server.Proxy.Tracking.{Chunk, utf8, has_log, data_of, token_tracking_stream}
use ollama_proxy_server.Proxy.Tracking.Passing.{stream_prefix}
use ollama_proxy_server.Proxy.Tracking.Complete.{IsReadable, complete_lines, stream_complete}
use ollama_proxy_server.Proxy.Tracking.Reports.{stream_reports}
use ollama_proxy_server.Proxy.Tracking.Division.{stream_division, stream_cut}

abbrev final_fields : Fields
final_fields =
    field "done" (bool true)
      (field "prompt_eval_count" (int (pos 3)) (field "eval_count" (int (pos 4)) end))

-- Every text is the final chunk.
abbrev loads_final : String → Option Json
loads_final s = some (obj final_fields)

abbrev loads_number : String → Option Json
loads_number s = some (int (pos 7))

abbrev collect : String → Exec (List String) (Unit {0})
collect line lines = (ok tt, lines ++ line ∷ [])

abbrev two_chunks : List Chunk
two_chunks = utf8 "{}\n{" ∷ utf8 "}\n" ∷ []

read_all-concat_example :
    read_all (read_chunk collect) "" ("ab\nc" ∷ "d\n" ∷ []) [] ≡ read_chunk collect "" "ab\ncd\n" []
read_all-concat_example = read_all-concat collect ("ab\nc" ∷ "d\n" ∷ []) []

extract_final_chunk_example :
    extract_tokens_from_chunk (obj final_fields)
    ≡ ok (record {
      prompt_tokens = int (pos 3);
      completion_tokens = int (pos 4);
      total_tokens = int (pos 7);
    })
unfolding find ◌+ℤ◌
extract_final_chunk_example = extract_final_chunk final_fields (pos 3) (pos 4) refl refl refl refl

-- `loads` of the texts `7` and `{"done": true, …}`, which stands for itself
abbrev loads_both : String → Option Json
loads_both s = if str_eq s "7" then some (int (pos 7)) else some (obj final_fields)

final_counts :
    (v : Json)
    → some (obj final_fields) ≡ some v
    → (tokens : Tokens) × (extract_tokens_from_chunk v ≡ ok tokens)
unfolding find
final_counts v h =
    subst (λ (u : Json). (tokens : Tokens) × (extract_tokens_from_chunk u ≡ ok tokens))
      (some-injective h) (_, extract_final_chunk final_fields (pos 3) (pos 4) refl refl refl refl)

lines-IsReadable :
    All (IsReadable loads_both (some 1)) (complete_lines "" (concat ("{}\n{" ∷ "}\n" ∷ [])))
unfolding data_of starts_with
lines-IsReadable = (final_counts, (final_counts, tt))

stream_prefix_example :
    (lost : List Chunk) × ((token_tracking_stream loads_number (some 1) two_chunks none).0 ++ lost
      ≡ two_chunks)
stream_prefix_example = stream_prefix loads_number (some 1) two_chunks none

stream_complete_example :
    (token_tracking_stream loads_both (some 1) (map utf8 ("{}\n{" ∷ "}\n" ∷ [])) none).0
    ≡ map utf8 ("{}\n{" ∷ "}\n" ∷ [])
stream_complete_example =
    stream_complete loads_both (some 1) ("{}\n{" ∷ "}\n" ∷ []) lines-IsReadable

stream_reports_example :
    (length (token_tracking_stream loads_final (some 1) two_chunks none).1.scheduled ≤ 1)
    × (has_log (some 1) ≡ false
        → length (token_tracking_stream loads_final (some 1) two_chunks none).1.scheduled ≡ 0)
stream_reports_example = stream_reports loads_final (some 1) two_chunks none

stream_division_example :
    (token_tracking_stream loads_final (some 1) (map utf8 ("{}\n{" ∷ "}\n" ∷ [])) none).1
    ≡ (token_tracking_stream loads_final (some 1) (map utf8 ("{}" ∷ "\n{}\n" ∷ [])) none).1
stream_division_example =
    stream_division loads_final (some 1) ("{}\n{" ∷ "}\n" ∷ []) ("{}" ∷ "\n{}\n" ∷ []) refl

stream_cut_example :
    (token_tracking_stream loads_number (some 1) (utf8 "7\n" ∷ utf8 "{}\n" ∷ []) none).0
    ≡ utf8 "7\n" ∷ []
unfolding strip starts_with
stream_cut_example =
    stream_cut loads_number (some 1) "7" (int (pos 7)) (utf8 "{}\n" ∷ []) none (omega arith, tt)
      refl refl refl refl
