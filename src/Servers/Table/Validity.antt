-- ===== src/Servers/Table/Validity.antt =====
-- Every server of the table stays valid.
use ollama_proxy_server.Prelude.{
  ℕ, ◌≡◌, refl, sym, ◌∙◌, inl, inr, Bool, true, not, ◌&&◌, Option, none, some, List, [], ◌∷◌,
  String, Result, ok, err, str_eq, ◌==◌, any, All, All-append, All-filter_keep, Bool-cases, if-true,
  if-false, some-injective, subst,
}
use ollama_proxy_server.Raises.{◌>>=◌}
use ollama_proxy_server.Proxy.Backend.{OllamaServer}
use ollama_proxy_server.Servers.Table.{
  ServerUpdate, valid_name, valid_type, get_server_by_id, replace_server, create_server, set_key,
  set_name, set_url, set_type, set_fields, commit, update_found, update_server, delete_server,
}

module _ (is_safe : String → Bool) (encrypt_data : String → String) where
  -- A server of the table has an address that is safe, a name and one of the two types.
  abbrev pub IsValid : OllamaServer → Type 0
  IsValid s =
      (is_safe s.url ≡ true) × (valid_name s.name ≡ true) × (valid_type s.server_type ≡ true)

  abbrev OkValid : Result OllamaServer → Type 0
  OkValid (ok s) = IsValid s
  OkValid (err e) = Unit

  set_name-OkValid :
      (v : Option String) (s : OllamaServer)
      → IsValid s
      → OkValid (set_name is_safe encrypt_data v s)
  unfolding set_name
  set_name-OkValid none s h = h
  set_name-OkValid (some v) s h = elim (Bool-cases (valid_name v)) [
    | inl e ↦ rw e (h.0, e, h.2)
    | inr e ↦ rw e tt
  ]

  set_url-OkValid :
      (v : Option String) (s : OllamaServer)
      → IsValid s
      → OkValid (set_url is_safe encrypt_data v s)
  unfolding set_url
  set_url-OkValid none s h = h
  set_url-OkValid (some v) s h = elim (Bool-cases (is_safe v)) [
    | inl e ↦ rw e (e, h.1, h.2)
    | inr e ↦ rw e tt
  ]

  set_type-OkValid :
      (v : Option String) (s : OllamaServer)
      → IsValid s
      → OkValid (set_type is_safe encrypt_data v s)
  unfolding set_type
  set_type-OkValid none s h = h
  set_type-OkValid (some v) s h = elim (Bool-cases (valid_type v)) [
    | inl e ↦ rw e (h.0, h.1, e)
    | inr e ↦ rw e tt
  ]

  bind-OkValid :
      (r : Result OllamaServer) (f : OllamaServer → Result OllamaServer)
      → OkValid r
      → ((s : OllamaServer) → IsValid s → OkValid (f s))
      → OkValid (r >>= f)
  bind-OkValid (ok s) f h k = k s h
  bind-OkValid (err e) f h k = tt

  set_key-IsValid :
      (v : Option String) (s : OllamaServer)
      → IsValid s
      → IsValid (set_key is_safe encrypt_data v s)
  unfolding set_key
  set_key-IsValid none s h = h
  set_key-IsValid (some v) s h = h

  set_fields-OkValid :
      (u : ServerUpdate) (s : OllamaServer)
      → IsValid s
      → OkValid (set_fields is_safe encrypt_data u s)
  unfolding set_fields
  set_fields-OkValid u s h =
      bind-OkValid
        (set_name is_safe encrypt_data u.name (set_key is_safe encrypt_data u.api_key s)
          >>= set_url is_safe encrypt_data u.url)
        (set_type is_safe encrypt_data u.server_type)
        (bind-OkValid
          (set_name is_safe encrypt_data u.name (set_key is_safe encrypt_data u.api_key s))
          (set_url is_safe encrypt_data u.url)
          (set_name-OkValid u.name _ (set_key-IsValid u.api_key s h))
          (λ t k. set_url-OkValid u.url t k))
        (λ t k. set_type-OkValid u.server_type t k)

  replace_server-All :
      (server_id : ℕ) (changed : OllamaServer) (servers : List OllamaServer)
      → IsValid changed
      → All IsValid servers
      → All IsValid (replace_server server_id changed servers)
  unfolding replace_server
  replace_server-All server_id changed [] c h = tt
  replace_server-All server_id changed (s ∷ servers) c h = elim (Bool-cases (s.id == server_id)) [
    | inl e ↦ rw e (c, replace_server-All server_id changed servers c h.1)
    | inr e ↦ rw e (h.0, replace_server-All server_id changed servers c h.1)
  ]

  get_server_by_id-IsValid :
      (server_id : ℕ) (servers : List OllamaServer) (s : OllamaServer)
      → All IsValid servers
      → get_server_by_id server_id servers ≡ some s
      → IsValid s
  unfolding get_server_by_id
  get_server_by_id-IsValid server_id [] s h e = absurd cc
  get_server_by_id-IsValid server_id (t ∷ servers) s h e = elim (Bool-cases (t.id == server_id)) [
    | inl found ↦ subst IsValid (some-injective (sym (if-true _ found) ∙ e)) h.0
    | inr other ↦ get_server_by_id-IsValid server_id servers s h.1 (sym (if-false _ other) ∙ e)
  ]

  create_server-All :
      (new_id : ℕ) (name url server_type : String) (api_key : Option String)
      (servers : List OllamaServer)
      → All IsValid servers
      → All IsValid
          (create_server is_safe encrypt_data new_id name url server_type api_key servers).1
  unfolding create_server
  create_server-All new_id name url server_type api_key servers h =
      elim (Bool-cases (is_safe url)) [
        | inr a ↦ rw a h
        | inl a ↦ rw a (elim (Bool-cases (valid_name name)) [
          | inr b ↦ rw b h
          | inl b ↦ rw b (elim (Bool-cases (valid_type server_type)) [
            | inr c ↦ rw c h
            | inl c ↦ rw c (elim (Bool-cases (any (λ s. str_eq s.url url) servers)) [
              | inl d ↦ rw d h
              | inr d ↦ rw d (All-append IsValid servers _ h ((a, b, c), tt))
            ])
          ])
        ])
      ]

  update_server-All :
      (u : ServerUpdate) (server_id : ℕ) (servers : List OllamaServer)
      → All IsValid servers
      → All IsValid (update_server is_safe encrypt_data u server_id servers).1
  unfolding update_server update_found
  update_server-All u server_id servers h = go (get_server_by_id server_id servers) refl
    where
      committed :
          (r : Result OllamaServer)
          → OkValid r
          → All IsValid (commit is_safe encrypt_data server_id r servers).1
      committed (ok s) k =
          elim (Bool-cases (any (λ t. str_eq t.url s.url && not (t.id == server_id)) servers)) [
            | inl taken ↦ unfold commit in rw taken h
            | inr free ↦ unfold commit in rw free (replace_server-All server_id s servers k h)
          ]
      committed (err e) k = unfold commit in h

      go :
          (found : Option OllamaServer)
          → get_server_by_id server_id servers ≡ found
          → All IsValid (update_found is_safe encrypt_data u server_id found servers).1
      go none e = h
      go (some s) e =
          committed _ (set_fields-OkValid u s (get_server_by_id-IsValid server_id servers s h e))

  -- Creating, updating and deleting a server, with whatever arguments and whether they succeed or
  -- raise, keep every server of the table valid.
  pub servers-IsValid :
      (servers : List OllamaServer)
      → All IsValid servers
      → ((new_id : ℕ) (name url server_type : String) (api_key : Option String)
          → All IsValid
              (create_server is_safe encrypt_data new_id name url server_type api_key servers).1)
        × ((u : ServerUpdate) (server_id : ℕ)
            → All IsValid (update_server is_safe encrypt_data u server_id servers).1)
        × ((server_id : ℕ) → All IsValid (delete_server is_safe encrypt_data server_id servers).1)
  unfolding delete_server
  servers-IsValid servers h = (
    λ new_id name url server_type api_key.
        create_server-All new_id name url server_type api_key servers h,
    λ u server_id. update_server-All u server_id servers h,
    λ server_id. All-filter_keep IsValid _ servers h,
  )
