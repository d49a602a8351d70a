-- ===== src/Servers/Http.antt =====
-- app/crud/server_crud.py: the HTTP client that the requests to the servers use, and `_get_auth_headers`.
use ollama_proxy_server.Prelude.{
  ℕ, Bool, ◌||◌, Option, none, some, List, [], ◌∷◌, String, Error, Exec, append, is_nil, Dict,
  if◌then◌else◌,
}
use ollama_proxy_server.Json.{Json}

pub record HttpRequest : Type 0 where
  pub method : String
  pub url : String
  pub headers : Dict String
  pub payload : Option Json

pub record HttpResponse : Type 0 where
  pub status_code : ℕ
  pub text : String

-- The status of a streamed response, its chunks, and the exception that ends them, if any
pub record StreamResponse : Type 0 where
  pub status_code : ℕ
  pub chunks : List String
  pub failure : Option Error

pub record HttpClient (W : Type 0) : Type 0 where
  pub request : HttpRequest → Exec W HttpResponse
  pub stream : HttpRequest → Exec W StreamResponse
  -- the statuses at which `raise_for_status` raises nothing, and a status as a text
  pub is_success : ℕ → Bool
  pub show_status : ℕ → String
  -- `_is_safe_url`, which resolves the name of the host
  pub is_safe_url : String → W → Bool
  pub decrypt_data : String → String
  -- `str(e)`
  pub show_error : Error → String

module _ {W : Type 0} (client : HttpClient W) where
  unfoldable pub get_auth_headers : Option String → Dict String
  get_auth_headers none = []
  get_auth_headers (some encrypted) =
      let api_key = client.decrypt_data encrypted in
      if is_nil encrypted || is_nil api_key
      then []
      else ("Authorization", append "Bearer " api_key) ∷ []
