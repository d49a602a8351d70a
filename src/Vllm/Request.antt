-- ===== src/Vllm/Request.antt =====
-- app/core/vllm_translator.py: `translate_ollama_to_vllm_chat` and
-- `translate_ollama_to_vllm_embeddings`. The payload is the object that `json.loads` has made of the
-- request; it has no value twice, so that a message changed in place is a new message.
pub mod Closing
pub mod Sanitized
use ollama_proxy_server.Prelude.{
  Bool, true, false, not, ◌||◌, ◌&&◌, Option, none, some, List, [], ◌∷◌, ◌++◌, String, Result, ok,
  err, append, strip, replace, is_nil, str_eq, map, if◌then◌else◌,
}
use ollama_proxy_server.Raises.{◌>>=◌}
use ollama_proxy_server.Json.{
  Json, null, bool, str, arr, obj, Items, Fields, end, field, find, put, del_key, truthy, is_true,
  or_null, contains_key, get, index, to_list, from_list,
}
use ollama_proxy_server.Json.Dynamic.{
  or_else, get_or, iterate, is_array, assign_key, get_if_in, each, object, array,
}
use ollama_proxy_server.Vllm.{Python, format}

unfoldable pub chain_of_thought_prompt : String
chain_of_thought_prompt =
    "When you are asked a question, first provide a step-by-step plan of how you will answer the question inside  tags. After the closing </think> tag, produce the final answer."

-- `if key in options: vllm_payload[target] = options[key]`
unfoldable pub copy_option : String → String → Json → Fields → Result Fields
copy_option key target options payload = do
  found ← get_if_in key options
  elim found [ none ↦ ok payload | some v ↦ ok (put target v payload) ]

copied_options : Json → Fields → Result Fields
unfolding copy_option
copied_options options payload = do
  p1 ← copy_option "temperature" "temperature" options payload
  p2 ← copy_option "top_p" "top_p" options p1
  p3 ← copy_option "top_k" "top_k" options p2
  p4 ← copy_option "num_predict" "max_tokens" options p3
  p5 ← copy_option "seed" "seed" options p4
  copy_option "stop" "stop" options p5

unfoldable pub copy_options : Json → Fields → Result Fields
unfolding copied_options
copy_options options payload = if truthy options then copied_options options payload else ok payload

-- A text content has each `</think>` broken up.
unfoldable pub sanitize : Json → Json
sanitize (str s) = str (replace "</think>" "< /think>" s)
sanitize v = v

pub is_system : Json → Bool
is_system (str s) = str_eq s "system"
is_system v = false

module _ (py : Python) where
  -- the content of a system message gets the prompt in front
  with_prompt : Bool → Json → Json
  with_prompt system content_str =
      if system
      then str (strip (append chain_of_thought_prompt (append "\n\n" (format py content_str))))
      else content_str

  -- the body of the loop over the messages, where thinking is on
  unfoldable pub think_message : Json → Result Json
  unfolding is_system sanitize with_prompt
  think_message message = do
    content ← get_or "content" (str "") message
    role ← get "role" message
    assign_key "content" (with_prompt (is_system role) (sanitize content)) message

  system_message : Json
  system_message = object (("role", str "system") ∷ ("content", str chain_of_thought_prompt) ∷ [])

  -- `message.get("role") == "system"` for one of the messages
  any_system : List Json → Result Bool
  unfolding is_system
  any_system [] = ok false
  any_system (message ∷ messages) = do
    role ← get "role" message
    rest ← any_system messages
    ok (is_system role || rest)

  unfoldable pub think_messages : Json → Result Json
  unfolding system_message any_system
  think_messages messages = do
    items ← iterate messages
    final_messages ← each think_message items
    has_system_prompt ← any_system items
    ok (array (if has_system_prompt then final_messages else system_message ∷ final_messages))

  think_or_same : Bool → Json → Result Json
  unfolding think_messages
  think_or_same is_thinking_on messages =
      if is_thinking_on then think_messages messages else ok messages

  image_part : Json → Json
  image_part img_b64 = object (
      ("type", str "image_url")
      ∷ (
        "image_url",
        object (("url", str (append "data:image/jpeg;base64," (format py img_b64))) ∷ []),
      )
      ∷ [])

  text_part : Json → Json
  text_part content = object (("type", str "text") ∷ ("text", content) ∷ [])

  is_full_text : Json → Bool
  is_full_text (str s) = not (is_nil s)
  is_full_text v = false

  -- `isinstance(message["images"], list)` and what is done then
  attach_images : Json → Json → Json
  unfolding image_part text_part is_full_text
  attach_images (arr images) (obj fs) =
      let content = or_null (find "content" fs) in
      let new_content = array (text_part content ∷ map image_part (to_list images)) in
      obj (del_key "images" (if is_full_text content then put "content" new_content fs else fs))
  attach_images images message = message

  -- the body of the loop that translates the image format
  unfoldable pub translate_images : Json → Result Json
  unfolding attach_images
  translate_images message = do
    found ← get_if_in "images" message
    elim found [ none ↦ ok message | some images ↦ ok (attach_images images message) ]

  -- the loop, which changes the items of a list; keys and characters stay
  unfoldable pub translate_all_images : Json → Result Json
  unfolding translate_images
  translate_all_images messages = do
    items ← iterate messages
    translated ← each translate_images items
    ok (if is_array messages then array translated else messages)

  unfoldable pub translate_ollama_to_vllm_chat : Fields → Result Fields
  unfolding think_or_same translate_all_images copy_options
  translate_ollama_to_vllm_chat ollama_payload =
      let stream = or_else (bool false) (find "stream" ollama_payload) in
      let started = put "stream" stream (put "model" (or_null (find "model" ollama_payload)) end) in
      let include_usage = object (("include_usage", bool true) ∷ []) in
      let with_stream =
        if truthy stream then put "stream_options" include_usage started else started in
      let messages = or_else (arr (from_list [])) (find "messages" ollama_payload) in
      do
        with_options ← copy_options (or_else (obj end) (find "options" ollama_payload)) with_stream
        final_messages ← think_or_same (is_true (or_null (find "think" ollama_payload))) messages
        translated ← translate_all_images final_messages
        ok (put "messages" translated with_options)

unfoldable pub translate_ollama_to_vllm_embeddings : Fields → Fields
translate_ollama_to_vllm_embeddings ollama_payload =
    put "input" (or_null (find "prompt" ollama_payload))
      (put "model" (or_null (find "model" ollama_payload)) end)
