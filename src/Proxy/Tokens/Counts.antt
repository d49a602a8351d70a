-- ===== src/Proxy/Tokens/Counts.antt =====
-- What `_extract_tokens_from_chunk` finds in the final chunk of an Ollama answer, and when it raises.
use ollama_proxy_server.Prelude.{
  Bool-cases, inl, inr, String, sym, ◌∙◌, Error, err, ◌≡◌, refl, Bool, true, false, ◌&&◌, Option,
  none, some, ok, err, ℤ, ◌+ℤ◌, Error, if◌then◌else◌, and-false, attribute_error,
}
use ollama_proxy_server.Raises.{raises_after}
use ollama_proxy_server.Json.{
  Json, int, bool, obj, Fields, find, contains_key, get, index, add, get_raises, is_object, truthy,
}
use ollama_proxy_server.Proxy.Tokens.{
  Tokens, no_tokens, read_counts, usage_counts, read_usage, extract_tokens_from_chunk,
}

module _ (chunk : Fields) where
  read_counts_final :
      (p c : ℤ) (tokens : Tokens)
      → find "prompt_eval_count" chunk ≡ some (int p)
      → find "prompt_count" chunk ≡ none
      → find "eval_count" chunk ≡ some (int c)
      → read_counts (obj chunk) tokens
        ≡ ok (record {
          prompt_tokens = int p;
          completion_tokens = int c;
          total_tokens = int (p +ℤ c);
        })
  unfolding read_counts contains_key get add
  read_counts_final p c tokens e n k = rw (e, n, k)

  read_usage_total : (tokens : Tokens) → (t : Tokens) × (read_usage (obj chunk) tokens ≡ ok t)
  unfolding read_usage contains_key index get
  read_usage_total tokens = go (find "usage" chunk) refl
    where
      go :
          (o : Option Json)
          → find "usage" chunk ≡ o
          → (t : Tokens) × (read_usage (obj chunk) tokens ≡ ok t)
      go none e = (tokens, rw e (unfold truthy in refl))
      go (some (obj fs)) e = rw e (both (truthy (obj fs)))
        where
          both :
              (b : Bool)
              → (t : Tokens) × ((if b && true then usage_counts (obj fs) else ok tokens) ≡ ok t)
          both true = (_, refl)
          both false = (tokens, refl)
      go (some v) e = (tokens, rw (e, and-false))

-- The final chunk of an Ollama answer, with both counts and no `prompt_count`: the tokens are those
-- counts and their sum, whatever `usage` holds.
pub extract_final_chunk :
    (chunk : Fields) (p c : ℤ)
    → find "done" chunk ≡ some (bool true)
    → find "prompt_eval_count" chunk ≡ some (int p)
    → find "prompt_count" chunk ≡ none
    → find "eval_count" chunk ≡ some (int c)
    → extract_tokens_from_chunk (obj chunk)
      ≡ ok
          (record { prompt_tokens = int p; completion_tokens = int c; total_tokens = int (p +ℤ c) })
unfolding extract_tokens_from_chunk get truthy
extract_final_chunk chunk p c d e n k =
    let (used, same) =
      read_usage_total chunk (record {
        prompt_tokens = int p;
        completion_tokens = int c;
        total_tokens = int (p +ℤ c);
      }) in
    rw (read_counts_final chunk p c no_tokens e n k, same, d)
      (read_counts_final chunk p c used e n k)

-- A chunk that is not an object makes `_extract_tokens_from_chunk` raise.
pub extract_raises :
    (chunk : Json)
    → is_object chunk ≡ false
    → (e : Error) × (extract_tokens_from_chunk chunk ≡ err e)
unfolding extract_tokens_from_chunk
extract_raises chunk h = raises_after (read_counts chunk no_tokens) _ (λ counted.
    raises_after (read_usage chunk counted) _
      (λ used. (attribute_error "no attribute 'get'", rw (get_raises "done" chunk h))))

get_object : (key : String) (v : Json) → is_object v ≡ true → (w : Json) × (get key v ≡ ok w)
unfolding get
get_object key (obj fs) h = (_, refl)
get_object key _ h = cc

ok≢err : {A : Type 0} {a : A} {e : Error} → ok a ≡ err e → ⊥
ok≢err h = cc

-- So a chunk whose tokens were extracted is an object, and its `get` returns.
pub get_of_extract :
    (key : String) (chunk : Json) (tokens : Tokens)
    → extract_tokens_from_chunk chunk ≡ ok tokens
    → (v : Json) × (get key chunk ≡ ok v)
get_of_extract key chunk tokens e = elim (Bool-cases (is_object chunk)) [
  | inl yes_object ↦ get_object key chunk yes_object
  | inr not_object ↦
      let (x, raised) = extract_raises chunk not_object in absurd (ok≢err (sym e ∙ raised))
]
