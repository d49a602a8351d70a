-- ===== src/Servers/Requests.antt =====
-- app/crud/server_crud.py: the requests that pull, delete, load and unload a model on a server, over the
-- HttpClient of Http. A message is cut where the code cuts it.
pub mod Confirmed
use Prim.Native.Char.{Char, code}
use ollama_proxy_server.Prelude.{
  ℕ, Bool, true, false, not, ◌&&◌, ◌||◌, Option, none, some, List, [], ◌∷◌, map, String, Error,
  http_status_error, json_decode_error, request_error, attribute_error, Result, ok, err, Exec,
  continue, pure, str_eq, append, is_nil, ltb, leb, ◌==◌, size, take_chars, rstrip_slash, Dict,
  is_empty, if◌then◌else◌,
}
use ollama_proxy_server.Raises
use ollama_proxy_server.Exec.{◌>>=◌, ◌>>◌}
use ollama_proxy_server.Json.{Json, null, bool, str, obj, is_object}
use ollama_proxy_server.Json.Dynamic.{get_or, object}
use ollama_proxy_server.Proxy.Backend.{OllamaServer}
use ollama_proxy_server.Vllm.{Python, format}
use ollama_proxy_server.Servers.Http.{
  HttpRequest, HttpResponse, StreamResponse, HttpClient, get_auth_headers,
}

pub record Outcome : Type 0 where
  pub success : Bool
  pub message : String

abbrev pub failed : String → Outcome
failed message = record { success = false; message = message }

abbrev pub succeeded : String → Outcome
succeeded message = record { success = true; message = message }

-- `[\w\.\-:@]`
is_name_char : Python → Char → Bool
is_name_char py c =
    py.is_word c || code c == b'.' || code c == b'-' || code c == b':' || code c == b'@'

-- `re.match(r"^[\w\.\-:@]+$", model_name)`, where `$` also stands before a last line feed
kept_to_end : Python → String → Bool
unfolding is_name_char
kept_to_end py String.[] = true
kept_to_end py (String.◌∷◌ c s) =
    let rest = kept_to_end py s in if is_name_char py c then rest else code c == 10 && is_nil s

unfoldable pub matches_name : Python → String → Bool
unfolding kept_to_end is_name_char
matches_name py String.[] = false
matches_name py (String.◌∷◌ c s) = is_name_char py c && kept_to_end py s

-- The three tests at the top of each operation: the message of the first that fails
unfoldable pub refusal : Python → String → OllamaServer → String → Option String
unfolding matches_name
refusal py vllm_message server model_name =
    if str_eq server.server_type "vllm"
    then some vllm_message
    else if is_nil model_name || ltb 256 (size model_name)
    then some "Invalid model name"
    else if not (matches_name py model_name)
    then some "Model name contains invalid characters"
    else none

module _ {W : Type 0} (py : Python) (client : HttpClient W) where
  request_for : String → OllamaServer → String → Json → HttpRequest
  request_for method server path payload = record {
    method = method;
    url = append (rstrip_slash server.url) path;
    headers = get_auth_headers client server.encrypted_api_key;
    payload = some payload;
  }

  raise_for_status : HttpResponse → Result HttpResponse
  raise_for_status response =
      if client.is_success response.status_code
      then ok response
      else err (http_status_error response.status_code response.text)

  -- a request, with `raise_for_status`
  ask : HttpRequest → Exec W HttpResponse
  unfolding raise_for_status
  ask request w = let (r, w') = client.request request w in (Raises.◌>>=◌ r raise_for_status, w')

  cut : String → String
  cut message = take_chars 512 message

  about : String → String → String → String
  about start model_name rest = append start (append " '" (append model_name rest))

  status_message : String → String → ℕ → String
  unfolding about
  status_message start model_name status =
      about start model_name (append "': Server returned status " (client.show_status status))

  unexpected : String → String → Error → Outcome
  unfolding cut about
  unexpected start model_name e =
      failed (cut (about start model_name (append "': " (client.show_error e))))

  -- `line.get('status')` for each chunk that is JSON
  read_chunks : List String → Option Error → Result (Unit {0})
  read_chunks [] none = ok tt
  read_chunks [] (some e) = err e
  read_chunks (chunk ∷ chunks) failure = elim (py.loads chunk) [
    | ok (obj line) ↦ read_chunks chunks failure
    | ok other ↦ err (attribute_error "no attribute 'get'")
    | err (json_decode_error message) ↦ read_chunks chunks failure
    | err e ↦ err e
  ]

  read_pull : Result StreamResponse → Result (Unit {0})
  unfolding read_chunks
  read_pull (err e) = err e
  read_pull (ok response) =
      if leb 400 response.status_code
      then err (http_status_error response.status_code "")
      else read_chunks response.chunks response.failure

  pull_outcome : String → Result (Unit {0}) → Outcome
  unfolding unexpected status_message cut
  pull_outcome model_name (ok done) =
      succeeded (append "Model '" (append model_name "' pulled/updated successfully."))
  pull_outcome model_name (err (http_status_error status text)) =
      failed (cut (status_message "Failed to pull model" model_name status))
  pull_outcome model_name (err e) =
      unexpected "An unexpected error occurred while pulling model" model_name e

  pub pull : OllamaServer → String → Exec W Outcome
  unfolding request_for read_pull pull_outcome
  pull server model_name w =
      let (r, w') =
        client.stream
          (request_for "POST" server "/api/pull"
            (object (("name", str model_name) ∷ ("stream", bool false) ∷ [])))
          w in
      (ok (pull_outcome model_name (read_pull r)), w')

  delete_outcome : String → Result HttpResponse → Outcome
  unfolding unexpected status_message cut
  delete_outcome model_name (ok response) =
      succeeded (append "Model '" (append model_name "' deleted successfully."))
  delete_outcome model_name (err (http_status_error status text)) =
      if status == 404
      then succeeded (append "Model '" (append model_name "' not found on server."))
      else failed (cut (status_message "Failed to delete model" model_name status))
  delete_outcome model_name (err e) =
      unexpected "An unexpected error occurred while deleting model" model_name e

  pub delete : OllamaServer → String → Exec W Outcome
  unfolding request_for ask delete_outcome
  delete server model_name w =
      let (r, w') =
        ask (request_for "DELETE" server "/api/delete" (object (("name", str model_name) ∷ [])))
          w in
      (ok (delete_outcome model_name r), w')

  -- `e.response.json().get("error", e.response.text)`, where only a JSONDecodeError is caught
  error_detail : String → Result Json
  error_detail text = elim (py.loads text) [
    | ok value ↦ get_or "error" (str text) value
    | err (json_decode_error message) ↦ ok (str text)
    | err e ↦ err e
  ]

  status_failure : String → String → ℕ → String → Result Outcome
  unfolding error_detail status_message cut
  status_failure start model_name status text = Raises.◌>>=◌ (error_detail text) (λ detail. ok (
      failed
        (cut (append (status_message start model_name status) (append ": " (format py detail))))))

  load_outcome : String → Result HttpResponse → Result Outcome
  unfolding unexpected status_failure
  load_outcome model_name (ok response) =
      ok (succeeded (append "Model '" (append model_name "' is being loaded into memory.")))
  load_outcome model_name (err (http_status_error status text)) =
      status_failure "Failed to load model" model_name status text
  load_outcome model_name (err e) =
      ok (unexpected "An unexpected error occurred while loading model" model_name e)

  pub load : OllamaServer → String → Exec W Outcome
  unfolding request_for ask load_outcome
  load server model_name w =
      let (r, w') =
        ask
          (request_for "POST" server "/api/generate" (
            object (("model", str model_name) ∷ ("prompt", str " ") ∷ ("stream", bool false) ∷ [])))
          w in
      (load_outcome model_name r, w')

  unload_outcome : String → Result HttpResponse → Result Outcome
  unfolding unexpected status_failure
  unload_outcome model_name (ok response) = ok (
      succeeded (
        append "Unload signal sent for model '"
          (append model_name "'. It will be removed from memory shortly.")))
  unload_outcome model_name (err (http_status_error status text)) =
      let failure = status_failure "Failed to unload model" model_name status text in
      if status == 404
      then ok (succeeded (append "Model '" (append model_name "' was not loaded in memory.")))
      else failure
  unload_outcome model_name (err e) =
      ok (unexpected "An unexpected error occurred while unloading model" model_name e)

  pub unload : OllamaServer → String → Exec W Outcome
  unfolding request_for ask unload_outcome
  unload server model_name w =
      let (r, w') =
        ask
          (request_for "POST" server "/api/generate" (
            object
              (("model", str model_name) ∷ ("prompt", str " ") ∷ ("keep_alive", str "0s") ∷ [])))
          w in
      (unload_outcome model_name r, w')

  -- the operation behind its tests
  guarded :
      Option String
      → (OllamaServer → String → Exec W Outcome)
      → OllamaServer
      → String
      → Exec W Outcome
  guarded (some message) action server model_name = pure (failed message)
  guarded none action server model_name = action server model_name

  module _ (server : OllamaServer) (model_name : String) where
    unfoldable pub pull_model_on_server : Exec W Outcome
    unfolding guarded pull
    pull_model_on_server =
        guarded (refusal py "Pulling models is not supported for vLLM servers." server model_name)
          pull server model_name

    unfoldable pub delete_model_on_server : Exec W Outcome
    unfolding guarded delete
    delete_model_on_server =
        guarded (refusal py "Deleting models is not supported for vLLM servers." server model_name)
          delete server model_name

    unfoldable pub load_model_on_server : Exec W Outcome
    unfolding guarded load
    load_model_on_server =
        guarded
          (refusal py "Explicit model loading is not applicable for vLLM servers." server
            model_name)
          load server model_name

    unfoldable pub unload_model_on_server : Exec W Outcome
    unfolding guarded unload
    unload_model_on_server =
        guarded
          (refusal py "Explicit model unloading is not applicable for vLLM servers." server
            model_name)
          unload server model_name
