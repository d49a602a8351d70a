-- ===== src/Proxy/AutoModel.antt =====
-- app/api/v1/routes/proxy.py: `_select_auto_model`, the choice of a model for a request that asks for
-- `auto`. The metadata are a list in the order of `get_all_metadata`, the models of the active servers a
-- list of names. A row of the metadata has no attribute `capabilities`, `is_reasoning_model` or
-- `context_length`, so `getattr` gives its default for each, and no model counts as a reasoning model.
pub mod Choice
use ollama_proxy_server.Prelude.{
  ℕ, ◌≡◌, Bool, true, false, not, ◌&&◌, ◌||◌, Option, none, some, List, [], ◌∷◌, map, String, Error,
  type_error, attribute_error, key_error, Result, ok, err, str_eq, lower, contains, any, filter,
  is_empty, is_nil, if◌then◌else◌,
}
use ollama_proxy_server.Raises.{◌>>=◌, ◌>>◌}
use ollama_proxy_server.Json.{
  Json, null, bool, int, str, arr, obj, Items, nil, cons, Fields, end, find, has_key, get, truthy,
}

pub record ModelMetadata : Type 0 where
  pub model_name : String
  pub supports_images : Bool
  pub is_code_model : Bool
  pub is_fast_model : Bool

-- What a request asks of a model
pub record Wanted : Type 0 where
  pub has_images : Bool
  pub contains_code : Bool
  pub fast_model : Bool
  pub requires_reasoning : Bool

-- The models that pass, or all of them if none does
unfoldable pub prefer_models : (ModelMetadata → Bool) → List ModelMetadata → List ModelMetadata
prefer_models test models =
    let passing = filter test models in if is_empty passing then models else passing

-- `"reasoning" in getattr(m, "capabilities", []) or getattr(m, "is_reasoning_model", False)`
unfoldable pub is_reasoning : ModelMetadata → Bool
is_reasoning m = any (str_eq "reasoning") [] || false

-- The filters, one after the other, on the models that are available
unfoldable pub candidate_models : Wanted → List ModelMetadata → List ModelMetadata
candidate_models wanted available =
    let seeing =
      if wanted.has_images then filter (λ m. m.supports_images) available else available in
    let coding =
      if wanted.contains_code then prefer_models (λ m. m.is_code_model) seeing else seeing in
    let fast = if wanted.fast_model then prefer_models (λ m. m.is_fast_model) coding else coding in
    if wanted.requires_reasoning then prefer_models is_reasoning fast else fast

first_model : List ModelMetadata → Option ModelMetadata
first_model [] = none
first_model (m ∷ models) = some m

-- `candidate_models[0]`, or the first available model if no candidate is left
unfoldable pub best_model : Wanted → List ModelMetadata → Option ModelMetadata
unfolding first_model
best_model wanted available =
    let candidates = candidate_models wanted available in
    first_model (if is_empty candidates then available else candidates)

unfoldable pub available_metadata : List ModelMetadata → List String → List ModelMetadata
available_metadata all_metadata all_available_models =
    filter (λ m. any (str_eq m.model_name) all_available_models) all_metadata

last_of : Json → Items → Json
last_of item nil = item
last_of item (cons next items) = last_of next items

-- `body["messages"][-1] if body["messages"] else {}`
last_message : Json → Result Json
last_message (arr nil) = ok (obj end)
last_message (arr (cons item items)) = ok (last_of item items)
last_message (obj end) = ok (obj end)
last_message (obj fields) = err (key_error "-1")
last_message (str text) = if is_nil text then ok (obj end) else ok (str text)
last_message other = if truthy other then err (type_error "not subscriptable") else ok (obj end)

is_text : Json → Bool
is_text (str kind) = str_eq kind "text"
is_text other = false

text_or_empty : Option Json → Json
text_or_empty none = str ""
text_or_empty (some text) = text

-- `next((p.get("text", "") for p in content if p.get("type") == "text"), "")`
text_part : Items → Result Json
text_part nil = ok (str "")
text_part (cons (obj part) parts) =
    let rest = text_part parts in
    if is_text (text_or_empty (find "type" part))
    then ok (text_or_empty (find "text" part))
    else rest
text_part (cons other parts) = err (attribute_error "no attribute 'get'")

content_text : Json → Result Json
content_text (str text) = ok (str text)
content_text (arr parts) = text_part parts
content_text other = ok (str "")

-- `prompt_content`, from the prompt or from the last message
unfoldable pub prompt_content : Fields → Result Json
unfolding last_message last_of text_part text_or_empty is_text content_text
prompt_content body = elim (find "prompt" body) [
  | some prompt ↦ ok prompt
  | none ↦ elim (find "messages" body) [
    | none ↦ ok (str "")
    | some messages ↦ do
      message ← last_message messages
      content ← get "content" message
      content_text content
  ]
]

-- `prompt_content.lower()`
lowered : Json → Result String
lowered (str text) = ok (lower text)
lowered other = err (attribute_error "no attribute 'lower'")

code_keywords : List String
code_keywords =
    "def " ∷ "class " ∷ "import " ∷ "const " ∷ "let " ∷ "var " ∷ "function " ∷ "public static void"
    ∷ "int main(" ∷ []

reasoning_keywords : List String
reasoning_keywords =
    "prove" ∷ "analyze step-by-step" ∷ "solve" ∷ "derive" ∷ "theorem" ∷ "logical deduction"
    ∷ "formal proof" ∷ []

-- `body.get("options", {}).get("fast_model")`
wants_fast : Option Json → Result Json
wants_fast none = ok null
wants_fast (some options) = get "fast_model" options

images_of : Option Json → Bool
images_of none = false
images_of (some images) = truthy images

name_of : Option ModelMetadata → Option String
name_of none = none
name_of (some m) = some m.model_name

pick : Fields → String → List ModelMetadata → Result (Option String)
pick body prompt [] = ok none
pick body prompt (m ∷ models) = do
  fast ← wants_fast (find "options" body)
  ok (
      name_of (
        best_model
          (record {
            has_images = images_of (find "images" body);
            contains_code = any (λ kw. contains (lower kw) prompt) code_keywords;
            fast_model = truthy fast;
            requires_reasoning = any (λ kw. contains kw prompt) reasoning_keywords;
          })
          (m ∷ models)))

unfoldable pub select_auto_model :
    List ModelMetadata → List String → Fields → Result (Option String)
unfolding prompt_content lowered code_keywords reasoning_keywords wants_fast images_of name_of pick
select_auto_model all_metadata all_available_models body = do
  content ← prompt_content body
  prompt ← lowered content
  pick body prompt (available_metadata all_metadata all_available_models)
