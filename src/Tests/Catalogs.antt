-- ===== src/Tests/Catalogs.antt =====
-- The answer to /tags and the fetch of a server's models at concrete inputs.
use ollama_proxy_server.Prelude.{
  ◌≡◌, ◌≤◌, refl, false, inl, List, [], ◌∷◌, ok, length, All, filter, take_chars, any, pos,
}
use ollama_proxy_server.Json.{Json, null, int, str, arr, obj, nil, cons, end, field, find, put}
use ollama_proxy_server.Json.Dynamic.{get_or, iterate, each, object}
use ollama_proxy_server.Servers.Entries.{read_models, ollama_model_entry, keep_chars, flatten}
use ollama_proxy_server.Servers.Entries.Plain.{IsPlain, plain_ollama, read_models-IsPlain}
use ollama_proxy_server.Proxy.Federation.{
  Models, all_models, auto_model, add_servers, add_models, add_model, set_model, same_key,
  listed_models,
}
use ollama_proxy_server.Proxy.Federation.Listed.{Has, all_models-Has}
use ollama_proxy_server.Tests.Adapters.{test_python}
use ollama_proxy_server.Tests.Endpoints.{llama_row}

abbrev llama_models : Models
llama_models =
    (str "llama3", obj (field "name" (str "llama3") (field "model" (str "llama3") end)))
    ∷ (str "auto", auto_model test_python "now")
    ∷ []

llama_and_auto : all_models test_python "now" (llama_row ∷ []) ≡ ok llama_models
unfolding all_models filter add_servers listed_models add_models add_model find put set_model
    same_key
llama_and_auto = refl

all_models-Has_example : Has (str "llama3") llama_models × Has (str "auto") llama_models
unfolding filter listed_models find
all_models-Has_example =
    all_models-Has test_python "now" (llama_row ∷ []) llama_row
      (obj (field "name" (str "llama3") end) ∷ []) (field "name" (str "llama3") end) "llama3"
      llama_models (inl refl) refl (inl refl) refl llama_and_auto

-- The characters `<` and `/` are not kept in the name of a model.
abbrev odd_answer : Json
odd_answer = obj (field "models" (arr (cons (obj (field "name" (str "a</b:1") end)) nil)) end)

abbrev odd_models : List Json
odd_models =
    object (
      ("name", str "ab:1")
      ∷ ("size", int (pos 0))
      ∷ ("modified_at", str "")
      ∷ ("digest", str "")
      ∷ (
        "details",
        object (
            ("parent_model", str "")
            ∷ ("format", str "")
            ∷ ("family", str "")
            ∷ ("families", null)
            ∷ ("parameter_size", str "")
            ∷ ("quantization_level", str "")
            ∷ []),
      )
      ∷ [])
    ∷ []

odd_is_cleaned : read_models test_python false odd_answer ≡ ok odd_models
unfolding read_models get_or iterate each flatten ollama_model_entry keep_chars any take_chars find
odd_is_cleaned = refl

read_models-IsPlain_example :
    (length odd_models ≤ 10000) × All (IsPlain test_python plain_ollama) odd_models
read_models-IsPlain_example =
    read_models-IsPlain test_python false odd_answer odd_models odd_is_cleaned
