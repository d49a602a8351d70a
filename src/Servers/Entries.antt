-- ===== src/Servers/Entries.antt =====
-- app/crud/server_crud.py: what `fetch_and_update_models` makes of the models in a server's answer.
pub mod Plain
use Prim.Native.Char.{Char, code}
use ollama_proxy_server.Prelude.{
  ℕ, zero, suc, ◌+◌, Bool, true, false, not, ◌&&◌, ◌||◌, Option, none, some, List, [], ◌∷◌, ◌++◌,
  map, String, Error, http_status_error, request_error, value_error, type_error, Result, ok, err,
  str_eq, append, is_nil, leb, ltb, ◌==◌, length, take, take_chars, split, contains, rstrip_slash,
  filter, any, ℤ, pos, if◌then◌else◌,
}
use ollama_proxy_server.Raises.{◌>>=◌}
use ollama_proxy_server.Json.{
  Json, null, int, str, arr, obj, Items, nil, cons, Fields, end, find, or_null, truthy, to_list,
}
use ollama_proxy_server.Json.Dynamic.{or_else, get_or, iterate, each, object, array}
use ollama_proxy_server.Proxy.Backend.{OllamaServer}
use ollama_proxy_server.Servers.Http.{HttpRequest, HttpResponse, HttpClient, get_auth_headers}
use ollama_proxy_server.Vllm.{Python, format}

-- The character is kept: it is one of `\w`, or one of the codes.
abbrev pub in_class : Python → List ℕ → Char → Bool
in_class py codes c = py.is_word c || any (λ n. code c == n) codes

-- `re.sub(r"[^…]", "", s)`
unfoldable pub keep_chars : (Char → Bool) → String → String
keep_chars p String.[] = String.[]
keep_chars p (String.◌∷◌ c s) = let rest = keep_chars p s in if p c then String.◌∷◌ c rest else rest

-- `.`, `-`, `:` and `/`, or `@`
abbrev pub vllm_name_codes : List ℕ
vllm_name_codes = 46 ∷ 45 ∷ 58 ∷ 47 ∷ []

abbrev pub ollama_name_codes : List ℕ
ollama_name_codes = 46 ∷ 45 ∷ 58 ∷ 64 ∷ []

abbrev pub clean : Python → List ℕ → ℕ → String → String
clean py codes n s = take_chars n (keep_chars (in_class py codes) s)

first_part : List String → String
first_part [] = ""
first_part (part ∷ parts) = part

-- the text in front of the first `:` and `-`
unfoldable pub family_of : Python → String → String
unfolding first_part
family_of py model_id =
    let base = if contains ":" model_id then first_part (split 58 model_id) else model_id in
    clean py (46 ∷ 45 ∷ []) 64 (first_part (split 45 base))

module _ {ℓ} {A : Type ℓ} where
  unfoldable pub flatten : List (List A) → List A
  flatten [] = []
  flatten (xs ∷ rest) = xs ++ flatten rest

module _ (py : Python) where
  vllm_details : String → Json
  vllm_details family = object (
      ("parent_model", str "")
      ∷ ("format", str "vllm")
      ∷ ("family", str family)
      ∷ ("families", if is_nil family then null else array (str family ∷ []))
      ∷ ("parameter_size", str "N/A")
      ∷ ("quantization_level", str "N/A")
      ∷ [])

  vllm_entry : String → Fields → Result Json
  unfolding vllm_details
  vllm_entry model_id model = do
    modified_at ← py.fromtimestamp (or_else (int (pos 0)) (find "created" model))
    ok (
        object (
          ("name", str model_id)
          ∷ ("size", int (pos 0))
          ∷ ("modified_at", str modified_at)
          ∷ ("digest", str model_id)
          ∷ ("details", vllm_details (family_of py model_id))
          ∷ []))

  one : Result Json → Result (List Json)
  one r = r >>= λ entry. ok (entry ∷ [])

  named_vllm : Option Json → Fields → Result (List Json)
  unfolding one vllm_entry
  named_vllm (some (str id)) model =
      let made = one (vllm_entry (clean py vllm_name_codes 256 id) model) in
      if is_nil id then ok [] else made
  named_vllm other model = ok []

  -- a model of a vLLM server, where it is an object with an id
  unfoldable pub vllm_model_entry : Json → Result (List Json)
  unfolding named_vllm
  vllm_model_entry (obj model) = named_vllm (find "id" model) model
  vllm_model_entry other = ok []

  -- `int(size)`, 0 for a ValueError or a TypeError
  size_of : Result ℤ → Result ℤ
  size_of (ok n) = ok n
  size_of (err (value_error message)) = ok (pos 0)
  size_of (err (type_error message)) = ok (pos 0)
  size_of (err e) = err e

  text_or_empty : Option Json → String
  text_or_empty (some (str s)) = s
  text_or_empty other = ""

  text_families : List Json → List Json
  text_families [] = []
  text_families (str family ∷ families) = str (take_chars 64 family) ∷ text_families families
  text_families (other ∷ families) = text_families families

  families_of : Option Json → Json
  unfolding text_families
  families_of (some (arr nil)) = null
  families_of (some (arr (cons x xs))) = array (take 10 (text_families (x ∷ to_list xs)))
  families_of other = null

  detail : String → ℕ → Fields → Json
  detail key n details = str (take_chars n (format py (or_else (str "") (find key details))))

  safe_details : Option Json → Json
  unfolding families_of detail
  safe_details (some (obj details)) = object (
      ("parent_model", detail "parent_model" 128 details)
      ∷ ("format", detail "format" 64 details)
      ∷ ("family", detail "family" 64 details)
      ∷ ("families", families_of (find "families" details))
      ∷ ("parameter_size", detail "parameter_size" 32 details)
      ∷ ("quantization_level", detail "quantization_level" 32 details)
      ∷ [])
  safe_details other = object (
      ("parent_model", str "")
      ∷ ("format", str "")
      ∷ ("family", str "")
      ∷ ("families", null)
      ∷ ("parameter_size", str "")
      ∷ ("quantization_level", str "")
      ∷ [])

  ollama_entry : String → Fields → Result Json
  unfolding size_of text_or_empty safe_details
  ollama_entry name model = do
    size ← size_of (py.int_of (or_else (int (pos 0)) (find "size" model)))
    ok (
        object (
          ("name", str name)
          ∷ ("size", int size)
          ∷ ("modified_at", str (take_chars 64 (text_or_empty (find "modified_at" model))))
          ∷ ("digest", str (clean py (58 ∷ []) 128 (text_or_empty (find "digest" model))))
          ∷ ("details", safe_details (find "details" model))
          ∷ []))

  named_ollama : Option Json → Fields → Result (List Json)
  unfolding one ollama_entry
  named_ollama (some (str name)) model =
      let made = one (ollama_entry (clean py ollama_name_codes 256 name) model) in
      if is_nil name then ok [] else made
  named_ollama other model = ok []

  -- a model of an Ollama server, where it is an object with a name
  unfoldable pub ollama_model_entry : Json → Result (List Json)
  unfolding named_ollama
  ollama_model_entry (obj model) = named_ollama (find "name" model) model
  ollama_model_entry other = ok []

  -- the models in an answer
  unfoldable pub read_models : Bool → Json → Result (List Json)
  read_models is_vllm value = do
    models ← get_or (if is_vllm then "data" else "models") (arr nil) value
    items ← iterate models
    entries ← each (if is_vllm then vllm_model_entry else ollama_model_entry) items
    ok (take 10000 (flatten entries))
