-- ===== src/Access/ApiKeys/Revoked.antt =====
-- A revoked key stays revoked: neither an authentication nor a later toggle brings it back.
use ollama_proxy_server.Prelude.{
  ℕ, ◌≡◌, refl, ◌∙◌, subst, ap, sym, ◌≢◌, inl, inr, Bool, true, false, not, Option, none, some,
  List, [], ◌∷◌, String, Error, ok, err, ok-injective, some-injective, if-true, if-false, arith,
  str_eq, ◌==◌, is_nil, starts_with, Bool-cases,
}
use ollama_proxy_server.Access.ApiKeys.{
  ApiKey, Hasher, get_api_key_by_prefix, get_api_key_by_id, update_row, revoke_api_key,
  toggle_found, toggle_api_key_active, check_row, check_parts, get_valid_api_key,
}

err-ok : {e : Error} {key : ApiKey} → err e ≢ ok key
err-ok h = cc

true-false : true ≢ false
true-false h = cc

is_revoked : ApiKey → Bool
is_revoked k = k.is_revoked

-- Every row with the id is revoked.
abbrev AllRevoked : ℕ → List ApiKey → Type 0
AllRevoked key_id [] = Unit
AllRevoked key_id (k ∷ keys) = (k.id ≡ key_id → k.is_revoked ≡ true) × AllRevoked key_id keys

revoke_api_key-AllRevoked :
    (key_id : ℕ) (keys : List ApiKey) → AllRevoked key_id (revoke_api_key key_id keys).1
unfolding revoke_api_key update_row
revoke_api_key-AllRevoked key_id [] = tt
revoke_api_key-AllRevoked key_id (k ∷ keys) = elim (Bool-cases (k.id == key_id)) [
  | inl e ↦ rw e (λ h. refl, revoke_api_key-AllRevoked key_id keys)
  | inr e ↦ rw e (λ h. absurd (ground arith), revoke_api_key-AllRevoked key_id keys)
]

AllRevoked-by_prefix :
    (key_id : ℕ) (prefix : String) (keys : List ApiKey) (key : ApiKey)
    → AllRevoked key_id keys
    → get_api_key_by_prefix prefix keys ≡ some key
    → key.id ≡ key_id
    → key.is_revoked ≡ true
unfolding get_api_key_by_prefix
AllRevoked-by_prefix key_id prefix [] key h e = cc
AllRevoked-by_prefix key_id prefix (k ∷ keys) key h e =
    elim (Bool-cases (str_eq k.key_prefix prefix)) [
      | inl found ↦
          let same : k ≡ key = some-injective (sym (if-true _ found) ∙ e) in
          subst (λ (r : ApiKey). r.id ≡ key_id → r.is_revoked ≡ true) same h.0
      | inr other ↦ AllRevoked-by_prefix key_id prefix keys key h.1 (sym (if-false _ other) ∙ e)
    ]

AllRevoked-by_id :
    (key_id : ℕ) (keys : List ApiKey) (key : ApiKey)
    → AllRevoked key_id keys
    → get_api_key_by_id key_id keys ≡ some key
    → key.is_revoked ≡ true
unfolding get_api_key_by_id is_revoked
AllRevoked-by_id key_id [] key h e = cc
AllRevoked-by_id key_id (k ∷ keys) key h e = elim (Bool-cases (k.id == key_id)) [
  | inl found ↦
      let same : k ≡ key = some-injective (sym (if-true _ found) ∙ e) in
      ap is_revoked (sym same) ∙ h.0 (ground arith)
  | inr other ↦ AllRevoked-by_id key_id keys key h.1 (sym (if-false _ other) ∙ e)
]

toggle_api_key_active_refuses :
    (key_id : ℕ) (keys : List ApiKey)
    → AllRevoked key_id keys
    → toggle_api_key_active key_id keys ≡ (none, keys)
unfolding toggle_api_key_active toggle_found
toggle_api_key_active_refuses key_id keys all = go (get_api_key_by_id key_id keys) refl
  where
    go :
        (row : Option ApiKey)
        → get_api_key_by_id key_id keys ≡ row
        → toggle_found row key_id keys ≡ (none, keys)
    go none e = refl
    go (some key) e = rw (AllRevoked-by_id key_id keys key all e) refl

module _ (hasher : Hasher) where
  check_row-ok :
      (secret : String) (row : Option ApiKey) (key : ApiKey)
      → check_row hasher secret row ≡ ok key
      → (row ≡ some key) × (key.is_revoked ≡ false)
  unfolding check_row
  check_row-ok secret none key h = cc
  check_row-ok secret (some k) key h = elim (Bool-cases k.is_revoked) [
    | inl gone ↦ absurd (err-ok (sym (if-true _ gone) ∙ h))
    | inr here ↦ elim (Bool-cases (not k.is_active)) [
      | inl off ↦ absurd (err-ok (sym (if-false _ here ∙ if-true _ off) ∙ h))
      | inr on ↦ elim (Bool-cases (not (hasher.verify secret k.hashed_key))) [
        | inl wrong ↦ absurd (err-ok (sym (if-false _ here ∙ if-false _ on ∙ if-true _ wrong) ∙ h))
        | inr right ↦
            let same : k ≡ key =
              ok-injective (sym (if-false _ here ∙ if-false _ on ∙ if-false _ right) ∙ h) in
            (ap some same, subst (λ (r : ApiKey). r.is_revoked ≡ false) same here)
      ]
    ]
  ]

  check_parts-ok :
      (keys : List ApiKey) (parts : Option (String × String)) (key : ApiKey)
      → check_parts hasher keys parts ≡ ok key
      → (prefix : String) × (get_api_key_by_prefix prefix keys ≡ some key)
        × (key.is_revoked ≡ false)
  unfolding check_parts
  check_parts-ok keys none key h = absurd (err-ok h)
  check_parts-ok keys (some (prefix, secret)) key h =
      let (found, live) = check_row-ok secret _ key h in (prefix, found, live)

  get_valid_api_key-ok :
      (keys : List ApiKey) (header : Option String) (key : ApiKey)
      → get_valid_api_key hasher keys header ≡ ok key
      → (prefix : String) × (get_api_key_by_prefix prefix keys ≡ some key)
        × (key.is_revoked ≡ false)
  unfolding get_valid_api_key
  get_valid_api_key-ok keys none key h = absurd (err-ok h)
  get_valid_api_key-ok keys (some header) key h = elim (Bool-cases (is_nil header)) [
    | inl empty ↦ absurd (err-ok (sym (if-true _ empty) ∙ h))
    | inr text ↦ elim (Bool-cases (not (starts_with header "Bearer "))) [
      | inl other ↦ absurd (err-ok (sym (if-false _ text ∙ if-true _ other) ∙ h))
      | inr bearer ↦ check_parts-ok keys _ key (sym (if-false _ text ∙ if-false _ bearer) ∙ h)
    ]
  ]

  -- After `revoke_api_key`, no header authenticates as the key, and `toggle_api_key_active` on it
  -- returns none and changes nothing.
  pub revoke_api_key_final :
      (key_id : ℕ) (keys : List ApiKey)
      → (let keys' = (revoke_api_key key_id keys).1 in
          (toggle_api_key_active key_id keys' ≡ (none, keys'))
          × ((header : Option String) (key : ApiKey)
              → get_valid_api_key hasher keys' header ≡ ok key
              → key.id ≢ key_id))
  revoke_api_key_final key_id keys =
      let keys' = (revoke_api_key key_id keys).1 in
      let all : AllRevoked key_id keys' = revoke_api_key-AllRevoked key_id keys in
      (
        toggle_api_key_active_refuses key_id keys' all,
        λ header key accepted same.
            let (prefix, found, live) = get_valid_api_key-ok keys' header key accepted in
            true-false (sym (AllRevoked-by_prefix key_id prefix keys' key all found same) ∙ live),
      )
