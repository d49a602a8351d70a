-- ===== src/Servers/Table.antt =====
-- app/crud/server_crud.py: `create_server`, `update_server` and `delete_server`, over the table of the
-- servers in the order of their ids. `is_safe` is `_is_safe_url` for the names as they resolve, and
-- `encrypt_data` the encryption of keys. An update that raises is not committed. The column of the
-- addresses is unique, so that a commit with an address of another row raises.
pub mod Validity
use ollama_proxy_server.Prelude.{
  ℕ, ◌≡◌, refl, sym, ap, ◌∙◌, inl, inr, Bool, true, false, not, ◌&&◌, ◌||◌, Option, none, some,
  List, [], ◌∷◌, ◌++◌, String, Error, value_error, other_error, Result, ok, err, str_eq, leb, ◌==◌,
  size, is_nil, any, All, All-append, filter, if◌then◌else◌, if-true, if-false, Bool-cases, arith,
}
use ollama_proxy_server.Raises.{◌>>=◌, ◌>>◌}
use ollama_proxy_server.Proxy.Backend.{OllamaServer}

pub record ServerUpdate : Type 0 where
  pub name : Option String
  pub url : Option String
  pub server_type : Option String
  pub api_key : Option String

unfoldable pub valid_name : String → Bool
valid_name name = not (is_nil name) && leb (size name) 128

unfoldable pub valid_type : String → Bool
valid_type server_type = str_eq server_type "ollama" || str_eq server_type "vllm"

unfoldable pub get_server_by_id : ℕ → List OllamaServer → Option OllamaServer
get_server_by_id server_id [] = none
get_server_by_id server_id (s ∷ servers) =
    if s.id == server_id then some s else get_server_by_id server_id servers

replace_server : ℕ → OllamaServer → List OllamaServer → List OllamaServer
replace_server server_id changed [] = []
replace_server server_id changed (s ∷ servers) =
    (if s.id == server_id then changed else s) ∷ replace_server server_id changed servers

module _ (is_safe : String → Bool) (encrypt_data : String → String) where
  encrypted : Option String → Option String
  encrypted none = none
  encrypted (some api_key) = if is_nil api_key then none else some (encrypt_data api_key)

  unfoldable pub create_server :
      ℕ
      → String
      → String
      → String
      → Option String
      → List OllamaServer
      → Result OllamaServer × List OllamaServer
  unfolding encrypted
  create_server new_id name url server_type api_key servers =
      let db_server : OllamaServer = record {
        id = new_id;
        name = name;
        url = url;
        server_type = server_type;
        is_active = true;
        encrypted_api_key = encrypted api_key;
      } in
      if not (is_safe url)
      then (err (value_error "URL is not allowed for security reasons."), servers)
      else if not (valid_name name)
      then (err (value_error "Server name must be 1-128 characters"), servers)
      else if not (valid_type server_type)
      then (err (value_error "Server type must be 'ollama' or 'vllm'"), servers)
      else if any (λ s. str_eq s.url url) servers
      then (err (other_error "UNIQUE constraint failed"), servers)
      else (ok db_server, servers ++ db_server ∷ [])

  -- a new key, or none for the empty text; without `api_key` the old one stays
  set_key : Option String → OllamaServer → OllamaServer
  set_key none s = s
  set_key (some api_key) s = record s { encrypted_api_key = encrypted (some api_key) }

  set_name : Option String → OllamaServer → Result OllamaServer
  set_name none s = ok s
  set_name (some name) s =
      if valid_name name
      then ok (record s { name = name })
      else err (value_error "Server name must be 1-128 characters")

  set_url : Option String → OllamaServer → Result OllamaServer
  set_url none s = ok s
  set_url (some url) s =
      if is_safe url
      then ok (record s { url = url })
      else err (value_error "URL is not allowed for security reasons")

  set_type : Option String → OllamaServer → Result OllamaServer
  set_type none s = ok s
  set_type (some server_type) s =
      if valid_type server_type
      then ok (record s { server_type = server_type })
      else err (value_error "Server type must be 'ollama' or 'vllm'")

  -- the loop over the fields, which stand in the order of the schema
  set_fields : ServerUpdate → OllamaServer → Result OllamaServer
  set_fields u s =
      set_name u.name (set_key u.api_key s) >>= set_url u.url >>= set_type u.server_type

  commit :
      ℕ → Result OllamaServer → List OllamaServer → Result (Option OllamaServer) × List OllamaServer
  commit server_id (err e) servers = (err e, servers)
  commit server_id (ok changed) servers =
      if any (λ s. str_eq s.url changed.url && not (s.id == server_id)) servers
      then (err (other_error "UNIQUE constraint failed"), servers)
      else (ok (some changed), replace_server server_id changed servers)

  update_found :
      ServerUpdate
      → ℕ
      → Option OllamaServer
      → List OllamaServer
      → Result (Option OllamaServer) × List OllamaServer
  update_found u server_id none servers = (ok none, servers)
  update_found u server_id (some s) servers = commit server_id (set_fields u s) servers

  unfoldable pub update_server :
      ServerUpdate → ℕ → List OllamaServer → Result (Option OllamaServer) × List OllamaServer
  unfolding set_fields commit update_found replace_server set_name set_key set_url set_type
      encrypted
  update_server u server_id servers =
      update_found u server_id (get_server_by_id server_id servers) servers

  unfoldable pub delete_server : ℕ → List OllamaServer → Option OllamaServer × List OllamaServer
  delete_server server_id servers =
      (get_server_by_id server_id servers, filter (λ s. not (s.id == server_id)) servers)
