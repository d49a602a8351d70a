-- ===== src/Tests/Ledgers.antt =====
-- Costs, contexts and addresses at concrete inputs.
use ollama_proxy_server.Prelude.{
  ◌+◌, ◌-◌, ◌*◌, leb, ok, if◌then◌else◌, lookup, size, All, ℕ, none, ◌≡◌, refl, Bool, true, false,
  Option, some, List, [], ◌∷◌, String, str_eq, lower,
}
use ollama_proxy_server.Services.Costs.{
  Request, remaining_budget, Floats, left_of, track_all, track_all-left_of,
}
use ollama_proxy_server.Json.{Json, null, str, obj, field}
use ollama_proxy_server.Services.Idempotency.{
  pending, completed, check_or_create, complete_operation, check_or_create_once,
}
use ollama_proxy_server.Proxy.Backend.{OllamaServer}
use ollama_proxy_server.Servers.Table.{
  ServerUpdate, valid_name, valid_type, create_server, update_server, delete_server,
}
use ollama_proxy_server.Servers.Table.Validity.{IsValid, servers-IsValid}
use ollama_proxy_server.Servers.SafeUrl.{
  UrlParts, is_safe_url, is_safe_parts, is_safe_address, gaierror,
}

abbrev two_requests : List Request
two_requests =
    record { model_tier = "fast"; input_tokens = 100; output_tokens = 20; user_id = "ann" }
    ∷ record { model_tier = "deep"; input_tokens = 10; output_tokens = 5; user_id = "bob" }
    ∷ []

-- Whole numbers of a hundred-millionth of a dollar, in place of floats
abbrev whole : Floats ℕ
whole = record {
  literal = λ text. if str_eq text "0.0005" then 50 else 150;
  of_int = λ n. n;
  add = λ a b. a + b;
  subtract = λ a b. a - b;
  multiply = λ a b. a * b;
  divide = λ a b. a;
  at_least = λ a b. leb b a;
}

track_all-left_of_example :
    remaining_budget whole 1000000 "ann" (track_all whole 1000000 two_requests [])
    ≡ left_of whole "ann" two_requests (remaining_budget whole 1000000 "ann" [])
track_all-left_of_example = track_all-left_of whole 1000000 "ann" two_requests []

abbrev same_text : String → String
same_text s = s

abbrev parse_loopback : String → Option UrlParts
parse_loopback url = some (record { scheme = "http"; hostname = "::1" })

-- `gethostbyname` knows no IPv6 addresses.
ipv6_loopback_passes :
    is_safe_url parse_loopback (λ hostname. gaierror) (λ ip. true) "http://[::1]/" ≡ true
unfolding is_safe_url is_safe_parts is_safe_address lower
ipv6_loopback_passes = refl

abbrev backend : OllamaServer
backend = record {
  id = 1;
  name = "one";
  url = "http://backend:11434";
  server_type = "ollama";
  is_active = true;
  encrypted_api_key = none;
}

abbrev every_address : String → Bool
every_address url = true

servers-IsValid_example :
    ((new_id : ℕ) (name url server_type : String) (api_key : Option String)
      → All
          (IsValid every_address same_text)
          (create_server every_address same_text new_id name url server_type api_key
            (backend ∷ [])).1)
    × ((u : ServerUpdate) (server_id : ℕ)
        → All
            (IsValid every_address same_text)
            (update_server every_address same_text u server_id (backend ∷ [])).1)
    × ((server_id : ℕ)
        → All
            (IsValid every_address same_text)
            (delete_server every_address same_text server_id (backend ∷ [])).1)
unfolding valid_name valid_type size
servers-IsValid_example =
    servers-IsValid every_address same_text (backend ∷ []) ((refl, refl, refl), tt)

abbrev state_text : Json → String
state_text (obj (field key (str state) rest)) = state
state_text other = "other"

abbrev text_state : String → Option Json
text_state text = if str_eq text "pending" then some pending else some (completed null)

check_or_create_once_example :
    (let (first, redis') = check_or_create text_state state_text "k1" "pull" [] in
      let redis'' = complete_operation text_state state_text "k1" "pull" null redis' in
      (first ≡ ok (true, none))
      × ((check_or_create text_state state_text "k1" "pull" redis').0 ≡ ok (false, some pending))
      × ((check_or_create text_state state_text "k1" "pull" redis'').0
          ≡ ok (false, some (completed null))))
unfolding lookup
check_or_create_once_example =
    check_or_create_once text_state state_text "k1" "pull" null [] refl refl refl refl refl
