-- ===== src/Access/ApiKeys/Issued.antt =====
-- A key that `create_api_key` issues is accepted by `get_valid_api_key`.
use Prim.Native.Char.{Char, code}
use ollama_proxy_server.Prelude.{
  ℕ, ◌≡◌, ◌≢◌, some, List, [], ◌∷◌, String, other_error, Result, ok, err, append,
}
use ollama_proxy_server.Access.ApiKeys.{ApiKey, Hasher, get_valid_api_key}

-- The text has no character with the code.
abbrev pub Free : ℕ → String → Type 0
Free n String.[] = Unit
Free n (String.◌∷◌ c s) = (code c ≢ n) × Free n s

module _ (hasher : Hasher) where
  -- What is known of a new row: the key's text is accepted with it, or the table was left as it was.
  abbrev pub IsIssued : List ApiKey → Result (String × ApiKey) × List ApiKey → Type 0
  IsIssued keys (ok (plain_key, row), keys') =
      get_valid_api_key hasher keys' (some (append "Bearer " plain_key)) ≡ ok row
  IsIssued keys (err e, keys') = (keys' ≡ keys) × (e ≡ other_error "UNIQUE constraint failed")
