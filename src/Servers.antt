-- ===== src/Servers.antt =====
-- app/crud/server_crud.py: the names of the models that the active servers list. A server's
-- `available_models` is a JSON column: null, a list, or a text with JSON. `loads` is `json.loads`, none
-- for a JSONDecodeError. `sorted(list(names))` of a set is a list without repetition, in the order of
-- the characters' codes.
pub mod Names
pub mod Matching
pub mod SafeUrl
pub mod Table
pub mod Grouped
pub mod Entries
pub mod Fetch
pub mod Http
pub mod Requests
pub mod Running
use Prim.Native.Nat.{Ordering, lt, eq, gt}
use Prim.Native.Char.{Char, code}
use Prim.Native.String
use Prim.Native.String.{compare}
use ollama_proxy_server.Prelude.{
  ℕ, ◌≡◌, Bool, true, false, not, ◌&&◌, Option, none, some, List, [], ◌∷◌, ◌++◌, String, Error,
  name_error, Result, ok, err, str_eq, lower, contains, is_some, leb, ltb, ◌==◌, ◌||◌, size, is_nil,
  take, take_chars, filter, if◌then◌else◌,
}
use ollama_proxy_server.Raises.{◌>>=◌, ◌>>◌}
use ollama_proxy_server.Json.{Json, str, arr, obj, Items, nil, cons, Fields, find, truthy}

pub record ModelServer : Type 0 where
  pub name : String
  pub is_active : Bool
  pub available_models : Json

-- `filter_type`, where anything but the two types is None
pub data FilterType : Type 0 where
  no_filter chat_only embedding_only : FilterType

-- `is_embedding_model` of a text
unfoldable pub is_embedding_model : String → Bool
is_embedding_model model_name = contains "embed" (lower model_name)

unfoldable pub wants : FilterType → String → Bool
wants no_filter model_name = true
wants chat_only model_name = not (is_embedding_model model_name)
wants embedding_only model_name = is_embedding_model model_name

module _ (loads : String → Option Json) where
  list_in : Option Json → Items
  list_in (some (arr models)) = models
  list_in other = nil

  listed : Json → Items
  listed (arr models) = models
  listed (str text) = list_in (loads text)
  listed other = nil

  -- the models that a server lists; every `continue` of the loop is a list without any
  unfoldable pub models_list : ModelServer → Items
  unfolding listed list_in
  models_list server =
      if truthy server.available_models then listed server.available_models else nil

-- The name of a model, cut to 256 characters, if it has one that is a text
name_in : Option Json → Option String
name_in (some (str model_name)) = some (take_chars 256 model_name)
name_in other = none

unfoldable pub model_name_of : Json → Option String
unfolding name_in
model_name_of (obj fields) = name_in (find "name" fields)
model_name_of other = none

wanted_name : FilterType → Option String → List String
wanted_name filter_type none = []
wanted_name filter_type (some model_name) =
    if wants filter_type model_name then model_name ∷ [] else []

unfoldable pub names_in : FilterType → Items → List String
unfolding wanted_name
names_in filter_type nil = []
names_in filter_type (cons model models) =
    wanted_name filter_type (model_name_of model) ++ names_in filter_type models

-- the place of a name in a sorted list without repetition
insert_at : Ordering → String → String → List String → List String → List String
insert_at lt name other names further = name ∷ other ∷ names
insert_at eq name other names further = other ∷ names
insert_at gt name other names further = other ∷ further

unfoldable pub insert_name : String → List String → List String
unfolding insert_at
insert_name name [] = name ∷ []
insert_name name (other ∷ names) =
    insert_at (compare name other) name other names (insert_name name names)

-- `sorted(list(set(names)))`
unfoldable pub sorted_set : List String → List String
sorted_set [] = []
sorted_set (name ∷ names) = insert_name name (sorted_set names)

module _ (loads : String → Option Json) where
  unfoldable pub names_of_servers : FilterType → List ModelServer → List String
  names_of_servers filter_type [] = []
  names_of_servers filter_type (server ∷ servers) =
      names_in filter_type (models_list loads server) ++ names_of_servers filter_type servers

  unfoldable pub get_all_available_model_names : FilterType → List ModelServer → List String
  get_all_available_model_names filter_type servers =
      take 10000 (sorted_set (names_of_servers filter_type (filter (λ s. s.is_active) servers)))

match_name : Option Json → Result (Unit {0}) → Result (Unit {0})
match_name none rest = rest
match_name (some available_model_name) rest =
    err (name_error "name '_model_matches' is not defined")

-- The loop of `get_servers_with_model` over a server's models: the first one with a name calls
-- `_model_matches`, which is defined nowhere.
unfoldable pub match_models : Items → Result (Unit {0})
unfolding match_name
match_models nil = ok tt
match_models (cons (obj fields) models) = match_name (find "name" fields) (match_models models)
match_models (cons other models) = match_models models

-- A model of the list has a name.
unfoldable pub has_named : Items → Bool
has_named nil = false
has_named (cons (obj fields) models) = is_some (find "name" fields) || has_named models
has_named (cons other models) = has_named models

-- `[^\w\.\-:@]` for ASCII letters
is_kept : Char → Bool
is_kept c =
    let n = code c in
    (leb 48 n && leb n 57)
    || (leb 64 n && leb n 90)
    || (leb 97 n && leb n 122)
    || n == 95
    || n == 46
    || n == 45
    || n == 58

-- `re.sub(…, "", model_name)[:256]`
unfoldable pub sanitized : String → String
unfolding is_kept
sanitized String.[] = String.[]
sanitized (String.◌∷◌ c s) = let rest = sanitized s in if is_kept c then String.◌∷◌ c rest else rest

-- A server that is made up for a cloud service, and is in no table
pub record DummyServer : Type 0 where
  pub name : String
  pub url : String
  pub server_type : String

unfoldable pub fallback : String → List DummyServer
fallback model_name =
    if contains "openrouter" (lower model_name)
    then record {
      name = "OpenRouter API";
      url = "https://openrouter.ai";
      server_type = "openrouter";
    }
      ∷ []
    else if contains "ollama-cloud" (lower model_name)
    then record {
      name = "Ollama Cloud API";
      url = "https://api.ollama.cloud";
      server_type = "ollama_cloud";
    }
      ∷ []
    else []

module _ (loads : String → Option Json) where
  unfoldable pub match_servers : List ModelServer → Result (Unit {0})
  match_servers [] = ok tt
  match_servers (server ∷ servers) = do
    match_models (models_list loads server)
    match_servers servers

  -- `get_servers_with_model`. Nothing joins the candidates, since the call before that raises.
  unfoldable pub get_servers_with_model : String → List ModelServer → Result (List DummyServer)
  get_servers_with_model model_name servers =
      if is_nil model_name || ltb 256 (size model_name)
      then ok []
      else (match_servers (filter (λ s. s.is_active) servers) >>= λ done.
          ok (fallback (sanitized model_name)))
