-- ===== src/Access/Csrf.antt =====
-- app/api/v1/dependencies.py: `get_csrf_token`, `validate_csrf_token` and `validate_csrf_token_header`,
-- which differ in where the caller's token stands. The session is a dictionary of texts; the token that
-- `secrets.token_hex(32)` draws for a session without one is an argument; `secrets.compare_digest` is
-- equality, over ASCII tokens.
use ollama_proxy_server.Prelude.{
  ◌≡◌, ◌⊎◌, Bool, true, false, not, ◌||◌, Option, none, some, String, http, Result, ok, err, str_eq,
  is_nil, Dict, lookup, insert, if◌then◌else◌,
}

ensure_token : String → Option String → Dict String → String × Dict String
ensure_token drawn none session = (drawn, insert "csrf_token" drawn session)
ensure_token drawn (some token) session = (token, session)

unfoldable pub get_csrf_token : String → Dict String → String × Dict String
unfolding ensure_token
get_csrf_token drawn session = ensure_token drawn (lookup "csrf_token" session) session

-- Raised as an HTTPException where the token is missing or another
compare_tokens : String → String → Result Bool
compare_tokens csrf_token stored_token =
    if is_nil stored_token || not (str_eq csrf_token stored_token)
    then err (http 403 "CSRF token mismatch")
    else ok true

unfoldable pub validate_csrf_token : String → String → Dict String → Result Bool × Dict String
unfolding compare_tokens
validate_csrf_token drawn csrf_token session =
    let (stored_token, session') = get_csrf_token drawn session in
    (compare_tokens csrf_token stored_token, session')

-- The token that a session holds after a validation: the one that it held, or the one just drawn.
unfoldable pub session_token : String → Dict String → String
session_token drawn session = elim (lookup "csrf_token" session) [ none ↦ drawn | some t ↦ t ]

-- The form's token is the one that the session holds, and is not empty.
abbrev pub IsMatching : String → String → Type 0
IsMatching csrf_token stored_token = (csrf_token ≡ stored_token) × (is_nil csrf_token ≡ false)

-- What may come of a comparison
abbrev pub Compared : String → String → Result Bool → Type 0
Compared csrf_token stored_token result =
    (IsMatching csrf_token stored_token × (result ≡ ok true))
    ⊎ ((¬ IsMatching csrf_token stored_token) × (result ≡ err (http 403 "CSRF token mismatch")))
