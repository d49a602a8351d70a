-- ===== src/Proxy/Federation.antt =====
-- app/api/v1/routes/proxy.py: `federate_models`, the list of all models for /tags. The table of models
-- is keyed by their names; a name may be any value that Python can hash. The name that a model gets as
-- its `model` is not written back to the server's row. The time of the entry for `auto` is given.
pub mod Listed
use ollama_proxy_server.Prelude.{
  ◌≡◌, Bool, true, false, not, ◌&&◌, Option, none, some, List, [], ◌∷◌, map, String,
  json_decode_error, type_error, Result, ok, err, ℤ, pos, negsuc, str_eq, ◌==◌, filter,
  if◌then◌else◌,
}
use ollama_proxy_server.Raises.{◌>>=◌}
use ollama_proxy_server.Json.{
  Json, null, bool, int, str, arr, obj, Items, nil, cons, Fields, find, put, has_key, truthy,
  to_list,
}
use ollama_proxy_server.Json.Dynamic.{object, array}
use ollama_proxy_server.Servers.Running.{ServerRow}
use ollama_proxy_server.Vllm.{Python}

abbrev int_of_bool : Bool → ℤ
int_of_bool true = pos 1
int_of_bool false = pos 0

same_int : ℤ → ℤ → Bool
same_int (pos m) (pos n) = m == n
same_int (negsuc m) (negsuc n) = m == n
same_int a b = false

-- `a == b` for two keys: True is 1, and False is 0
unfoldable pub same_key : Json → Json → Bool
unfolding same_int
same_key (str s) (str t) = str_eq s t
same_key (int a) (int b) = same_int a b
same_key (int a) (bool b) = same_int a (int_of_bool b)
same_key (bool a) (int b) = same_int (int_of_bool a) b
same_key (bool a) (bool b) = same_int (int_of_bool a) (int_of_bool b)
same_key null null = true
same_key a b = false

abbrev pub Models : Type 0
Models = List (Json × Json)

-- `all_models[key] = model`, where an old key keeps its place
unfoldable pub set_model : Json → Json → Models → Models
set_model key model [] = (key, model) ∷ []
set_model key model ((k, m) ∷ models) =
    let rest = set_model key model models in
    if same_key k key then (k, model) ∷ models else (k, m) ∷ rest

-- `all_models.get(key)`
unfoldable pub model_at : Json → Models → Option Json
model_at key [] = none
model_at key ((k, m) ∷ models) =
    let rest = model_at key models in if same_key k key then some m else rest

hashed : Json → Models → Json → Result Models
unfolding set_model
hashed (arr xs) models model = err (type_error "unhashable type: 'list'")
hashed (obj fs) models model = err (type_error "unhashable type: 'dict'")
hashed key models model = ok (set_model key model models)

named : Option Json → Fields → Models → Result Models
unfolding hashed
named none fields models = ok models
named (some name) fields models =
    hashed name models (obj (if has_key "model" fields then fields else put "model" name fields))

-- the body of the loop over a server's models
unfoldable pub add_model : Json → Models → Result Models
unfolding named
add_model (obj fields) models = named (find "name" fields) fields models
add_model other models = ok models

unfoldable pub add_models : List Json → Models → Result Models
add_models [] models = ok models
add_models (model ∷ rest) models = do added ← add_model model models; add_models rest added

module _ (py : Python) where
  listed_text : Result Json → Result (List Json)
  listed_text (ok (arr models)) = ok (to_list models)
  listed_text (ok other) = ok []
  listed_text (err (json_decode_error message)) = ok []
  listed_text (err e) = err e

  -- `models_list` of a server, empty where the loop goes on to the next one
  unfoldable pub listed_models : Json → Result (List Json)
  unfolding listed_text
  listed_models (arr models) = ok (to_list models)
  listed_models (str text) = if truthy (str text) then listed_text (py.loads text) else ok []
  listed_models other = ok []

  unfoldable pub add_servers : List ServerRow → Models → Result Models
  add_servers [] models = ok models
  add_servers (row ∷ rows) models = do
    found ← listed_models row.available_models
    added ← add_models found models
    add_servers rows added

  unfoldable pub auto_model : String → Json
  auto_model modified_at = object (
      ("name", str "auto")
      ∷ ("model", str "auto")
      ∷ ("modified_at", str modified_at)
      ∷ ("size", int (pos 0))
      ∷ ("digest", str "auto-digest-placeholder")
      ∷ (
        "details",
        object (
            ("parent_model", str "")
            ∷ ("format", str "proxy")
            ∷ ("family", str "auto")
            ∷ ("families", array (str "auto" ∷ []))
            ∷ ("parameter_size", str "N/A")
            ∷ ("quantization_level", str "N/A")
            ∷ []),
      )
      ∷ [])

  -- the table behind the loop and the entry for `auto`
  unfoldable pub all_models : String → List ServerRow → Result Models
  all_models modified_at rows = do
    models ← add_servers (filter (λ row. row.server.is_active) rows) []
    ok (set_model (str "auto") (auto_model modified_at) models)

  unfoldable pub federate_models : String → List ServerRow → Result Json
  federate_models modified_at rows = do
    models ← all_models modified_at rows
    ok (object (("models", array (map (λ entry. entry.1) models)) ∷ []))
