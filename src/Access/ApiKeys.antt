-- ===== src/Access/ApiKeys.antt =====
-- app/api/v1/dependencies.py: `get_valid_api_key`; app/core/security.py and app/crud/apikey_crud.py:
-- the keys. A hash is what `passlib` makes of a secret: its `hash` and `verify` are parameters, with
-- the law that a secret verifies against its own hash where that is needed. The tokens that
-- `secrets.token_hex` draws are arguments. The key table is a list of rows in the order of their ids.
pub mod Issued
pub mod Revoked
use Prim.Native.Char.{code}
use Prim.Native.String
use ollama_proxy_server.Prelude.{
  ℕ, ◌+◌, ◌≡◌, Bool, true, false, not, ◌&&◌, ◌||◌, Option, none, some, List, [], ◌∷◌, ◌++◌, String,
  Error, http, other_error, any, Result, ok, err, str_eq, ◌==◌, split, is_nil, starts_with, append,
  get_elem?, if◌then◌else◌,
}
use ollama_proxy_server.Raises.{◌>>=◌, ◌>>◌}

pub record ApiKey : Type 0 where
  pub id : ℕ
  pub key_name : String
  pub hashed_key : String
  pub key_prefix : String
  pub user_id : ℕ
  pub is_active : Bool
  pub is_revoked : Bool
  pub rate_limit_requests : Option ℕ
  pub rate_limit_window_minutes : Option ℕ

-- `select(APIKey).filter(APIKey.key_prefix == prefix)` and `.first()`
unfoldable pub get_api_key_by_prefix : String → List ApiKey → Option ApiKey
get_api_key_by_prefix prefix [] = none
get_api_key_by_prefix prefix (k ∷ keys) =
    if str_eq k.key_prefix prefix then some k else get_api_key_by_prefix prefix keys

unfoldable pub get_api_key_by_id : ℕ → List ApiKey → Option ApiKey
get_api_key_by_id key_id [] = none
get_api_key_by_id key_id (k ∷ keys) =
    if k.id == key_id then some k else get_api_key_by_id key_id keys

-- `s.rsplit("_", 1)`: the parts around the last underscore, `none` where there is none
unfoldable pub rsplit_underscore : String → Option (String × String)
rsplit_underscore String.[] = none
rsplit_underscore (String.◌∷◌ c s) = elim (rsplit_underscore s) [
  | some (prefix, secret) ↦ some (String.◌∷◌ c prefix, secret)
  | none ↦ if code c == b'_' then some ("", s) else none
]

-- The row that is kept, after a change of the row with an id
unfoldable pub update_row : ℕ → (ApiKey → ApiKey) → List ApiKey → List ApiKey
update_row key_id change [] = []
update_row key_id change (k ∷ keys) =
    (if k.id == key_id then change k else k) ∷ update_row key_id change keys

-- `revoke_api_key`: revoking also deactivates.
unfoldable pub revoke_api_key : ℕ → List ApiKey → Option ApiKey × List ApiKey
revoke_api_key key_id keys =
    let keys' = update_row key_id (λ k. record k { is_revoked = true; is_active = false }) keys in
    (get_api_key_by_id key_id keys', keys')

toggle_found : Option ApiKey → ℕ → List ApiKey → Option ApiKey × List ApiKey
toggle_found none key_id keys = (none, keys)
toggle_found (some key) key_id keys =
    if key.is_revoked
    then (none, keys)
    else let keys' = update_row key_id (λ k. record k { is_active = not key.is_active }) keys in
      (get_api_key_by_id key_id keys', keys')

unfoldable pub toggle_api_key_active : ℕ → List ApiKey → Option ApiKey × List ApiKey
unfolding toggle_found
toggle_api_key_active key_id keys = toggle_found (get_api_key_by_id key_id keys) key_id keys

-- What the authentication calls: bcrypt, of which the program uses these two functions.
pub record Hasher : Type 0 where
  pub hash : String → String
  pub verify : String → String → Bool

module _ (hasher : Hasher) where
  -- A row of the table keeps the commit from adding the new one: a prefix is unique, and so is a user's
  -- name for a key.
  clashes : ApiKey → ApiKey → Bool
  clashes new k =
      str_eq k.key_prefix new.key_prefix
      || str_eq k.hashed_key new.hashed_key
      || (k.user_id == new.user_id && str_eq k.key_name new.key_name)

  -- `create_api_key`, with the two texts that `token_hex` draws and the id that the table gives
  unfoldable pub create_api_key :
      ℕ
      → String
      → String
      → ℕ
      → String
      → Option ℕ
      → Option ℕ
      → List ApiKey
      → Result (String × ApiKey) × List ApiKey
  unfolding clashes
  create_api_key new_id prefix_random_part secret user_id key_name requests window keys =
      let prefix = append "op_" prefix_random_part in
      let plain_key = append prefix (append "_" secret) in
      let db_api_key : ApiKey = record {
        id = new_id;
        key_name = key_name;
        hashed_key = hasher.hash secret;
        key_prefix = prefix;
        user_id = user_id;
        is_active = true;
        is_revoked = false;
        rate_limit_requests = requests;
        rate_limit_window_minutes = window;
      } in
      if any (clashes db_api_key) keys
      then (err (other_error "UNIQUE constraint failed"), keys)
      else (ok (plain_key, db_api_key), keys ++ db_api_key ∷ [])

  check_row : String → Option ApiKey → Result ApiKey
  check_row secret none = err (http 401 "Invalid API Key")
  check_row secret (some key) =
      if key.is_revoked
      then err (http 403 "API Key has been revoked")
      else if not key.is_active
      then err (http 403 "API Key is disabled")
      else if not (hasher.verify secret key.hashed_key)
      then err (http 401 "Invalid API Key")
      else ok key

  check_parts : List ApiKey → Option (String × String) → Result ApiKey
  check_parts keys none = err (http 401 "Invalid API key format")
  check_parts keys (some (prefix, secret)) = check_row secret (get_api_key_by_prefix prefix keys)

  -- `auth_header.split(" ")[1]`, which is there behind `Bearer `
  pub second_word : String → String
  second_word header = elim (get_elem? (split 32 header) 1) [ none ↦ "" | some w ↦ w ]

  -- `get_valid_api_key`. Without a row the source verifies against a dummy hash and drops the answer.
  unfoldable pub get_valid_api_key : List ApiKey → Option String → Result ApiKey
  unfolding check_row check_parts second_word
  get_valid_api_key keys none = err (http 401 "Authorization header is missing")
  get_valid_api_key keys (some header) =
      if is_nil header
      then err (http 401 "Authorization header is missing")
      else if not (starts_with header "Bearer ")
      then err (http 401 "Invalid authentication scheme. Use 'Bearer <api_key>'.")
      else check_parts keys (rsplit_underscore (second_word header))
