-- ===== src/Tests/Accesses.antt =====
-- The dependencies of the routes at a key that is issued and revoked, and at the answers of a Redis.
use ollama_proxy_server.Prelude.{
  err, other_error, http, any, ◌⊎◌, ◌≡◌, ◌≢◌, refl, true, false, Option, none, [], ◌∷◌, String, ok,
  Dict, str_eq,
}
use ollama_proxy_server.Access.IpFilter.{address_list, ip_filter, Admitted, ip_filter_cases}
use ollama_proxy_server.Access.ApiKeys.{
  ApiKey, Hasher, create_api_key, revoke_api_key, toggle_api_key_active, get_valid_api_key,
}
use ollama_proxy_server.Access.ApiKeys.Revoked.{revoke_api_key_final}

abbrev plain : Hasher
plain = record { hash = λ s. s; verify = λ s h. str_eq s h }

abbrev laptop : ApiKey
laptop = record {
  id = 1;
  key_name = "laptop";
  hashed_key = "b2";
  key_prefix = "op_a1";
  user_id = 7;
  is_active = true;
  is_revoked = false;
  rate_limit_requests = none;
  rate_limit_window_minutes = none;
}

is_issued :
    create_api_key plain 1 "a1" "b2" 7 "laptop" none none []
    ≡ (ok ("op_a1_b2", laptop), laptop ∷ [])
unfolding create_api_key any
is_issued = refl

-- A second key of the user with the same name
no_second_laptop :
    create_api_key plain 2 "a2" "b3" 7 "laptop" none none (laptop ∷ [])
    ≡ (err (other_error "UNIQUE constraint failed"), laptop ∷ [])
unfolding create_api_key any
no_second_laptop = refl

revoke_api_key_final_example :
    (toggle_api_key_active 1 (revoke_api_key 1 (laptop ∷ [])).1
      ≡ (none, (revoke_api_key 1 (laptop ∷ [])).1))
    × ((header : Option String) (key : ApiKey)
        → get_valid_api_key plain (revoke_api_key 1 (laptop ∷ [])).1 header ≡ ok key
        → key.id ≢ 1)
revoke_api_key_final_example = revoke_api_key_final plain 1 (laptop ∷ [])

ip_filter_cases_example :
    ((ip_filter "10.0.0.1, 10.0.0.2" "" "10.0.0.3" ≡ ok true)
      × Admitted (address_list "10.0.0.1, 10.0.0.2") (address_list "") "10.0.0.3")
    ⊎ ((¬ Admitted (address_list "10.0.0.1, 10.0.0.2") (address_list "") "10.0.0.3")
        × (detail : String) × (ip_filter "10.0.0.1, 10.0.0.2" "" "10.0.0.3"
            ≡ err (http 403 detail)))
ip_filter_cases_example = ip_filter_cases "10.0.0.1, 10.0.0.2" "" "10.0.0.3"

abbrev session : Dict String
session = ("csrf_token", "t1") ∷ []
