-- ===== src/Servers/Names.antt =====
-- Which names `get_all_available_model_names` gives.
use Prim.Native.Nat.{Ordering, lt, eq, gt}
use Prim.Native.String.{compare}
use text.Mathlib.TextEquality.{path_by_compare}
use ollama_proxy_server.Prelude.{
  ℕ, zero, suc, ◌≤◌, ◌≡◌, ◌≢◌, ◌⊎◌, ◌↔◌, refl, sym, ap, subst, ◌∙◌, inl, inr, true, false, List, [],
  ◌∷◌, ◌++◌, String, Option, some, some-injective, In, contains, lower, length, take, take_chars,
  filter, arith, Bool-cases,
}
use ollama_proxy_server.Json.{Json, str, obj, Items, nil, cons, find}
use ollama_proxy_server.Json.Updates.{str-injective}
use ollama_proxy_server.Servers.{
  ModelServer, FilterType, no_filter, chat_only, embedding_only, is_embedding_model, wants,
  model_name_of, name_in, wanted_name, insert_at, insert_name, sorted_set, names_of_servers,
  names_in, models_list, get_all_available_model_names,
}

In-insert_name :
    (x name : String) (names : List String)
    → In x (insert_name name names) ↔ ((x ≡ name) ⊎ In x names)
unfolding insert_name
In-insert_name x name [] = (λ h. h, λ h. h)
In-insert_name x name (other ∷ names) = go (compare name other) refl (In-insert_name x name names)
  where
    go :
        (o : Ordering)
        → compare name other ≡ o
        → (In x (insert_name name names) ↔ ((x ≡ name) ⊎ In x names))
        → In x (insert_at o name other names (insert_name name names))
          ↔ ((x ≡ name) ⊎ ((x ≡ other) ⊎ In x names))
    go lt e h = (λ k. k, λ k. k)
    go eq e h = (
      λ k. inr k,
      λ k. elim k [ inl same ↦ inl (same ∙ path_by_compare name other e) | inr there ↦ there ],
    )
    go gt e h = (
      λ k. elim k [
        | inl same ↦ inr (inl same)
        | inr there ↦ elim (h.0 there) [ inl same ↦ inl same | inr further ↦ inr (inr further) ]
      ],
      λ k. elim k [
        | inl same ↦ inr (h.1 (inl same))
        | inr there ↦ elim there [ inl same ↦ inl same | inr further ↦ inr (h.1 (inr further)) ]
      ],
    )

In-sorted_set : (x : String) (names : List String) → In x (sorted_set names) ↔ In x names
unfolding sorted_set
In-sorted_set x [] = (λ h. h, λ h. h)
In-sorted_set x (name ∷ names) =
    let (into, out) = In-insert_name x name (sorted_set names) in
    let (there, back) = In-sorted_set x names in
    (
      λ h. elim (into h) [ inl same ↦ inl same | inr further ↦ inr (there further) ],
      λ h. elim h [ inl same ↦ out (inl same) | inr further ↦ out (inr (back further)) ],
    )

false-true : false ≢ true
false-true h = cc

In-append : (x : String) (xs ys : List String) → In x (xs ++ ys) ↔ (In x xs ⊎ In x ys)
In-append x [] ys = (λ h. inr h, λ h. elim h [ inl k ↦ absurd k | inr k ↦ k ])
In-append x (y ∷ xs) ys =
    let (there, back) = In-append x xs ys in
    (
      λ h. elim h [
        | inl same ↦ inl (inl same)
        | inr further ↦ elim (there further) [ inl k ↦ inl (inr k) | inr k ↦ inr k ]
      ],
      λ h. elim h [
        | inl first ↦ elim first [ inl same ↦ inl same | inr k ↦ inr (back (inl k)) ]
        | inr k ↦ inr (back (inr k))
      ],
    )

take_all : (n : ℕ) (names : List String) → length names ≤ n → take n names ≡ names
take_all zero [] h = refl
take_all zero (name ∷ names) h = absurd (omega (arith, h))
take_all (suc n) [] h = refl
take_all (suc n) (name ∷ names) h = ap (λ rest. name ∷ rest) (take_all n names (omega (arith, h)))

-- The name is of the type that is asked for: an embedding model has `embed` in its name, in any case
-- of letters, and a model for chats has not.
abbrev pub IsOfType : FilterType → String → Type 0
IsOfType no_filter x = Unit
IsOfType chat_only x = contains "embed" (lower x) ≡ false
IsOfType embedding_only x = contains "embed" (lower x) ≡ true

-- One of the models is an object whose name, cut to 256 characters, is the name.
abbrev pub HasName : String → Items → Type 0
HasName x nil = ⊥
HasName x (cons (obj fields) models) =
    ((name : String) × (find "name" fields ≡ some (str name)) × (x ≡ take_chars 256 name))
    ⊎ HasName x models
HasName x (cons other models) = HasName x models

-- Some server of the list is active and lists a model with the name.
abbrev pub Listed : (String → Option Json) → String → List ModelServer → Type 0
Listed loads x [] = ⊥
Listed loads x (server ∷ servers) =
    ((server.is_active ≡ true) × HasName x (models_list loads server)) ⊎ Listed loads x servers

wants_iff :
    (filter_type : FilterType) (x : String) → (wants filter_type x ≡ true) ↔ IsOfType filter_type x
unfolding wants is_embedding_model
wants_iff no_filter x = (λ h. tt, λ h. refl)
wants_iff chat_only x = ground arith
wants_iff embedding_only x = (λ h. h, λ h. h)

module _ (filter_type : FilterType) (x : String) where
  In-wanted_name :
      (name : String)
      → In x (wanted_name filter_type (some name)) ↔ (IsOfType filter_type x × (x ≡ name))
  unfolding wanted_name
  In-wanted_name name = elim (Bool-cases (wants filter_type name)) [
    | inl wanted ↦ rw wanted (
      λ h. elim h [
        | inl same ↦
            (subst (IsOfType filter_type) (sym same) ((wants_iff filter_type name).0 wanted), same)
        | inr nothing ↦ absurd nothing
      ],
      λ h. inl h.1,
    )
    | inr refused ↦ rw refused (
      λ h. absurd h,
      λ h. absurd (
          false-true
            (sym refused ∙ (wants_iff filter_type name).1 (subst (IsOfType filter_type) h.1 h.0))),
    )
  ]

  -- The name is in one of two lists.
  In-either :
      (names rest : List String) (P Q : Type 0)
      → In x names ↔ (IsOfType filter_type x × P)
      → In x rest ↔ (IsOfType filter_type x × Q)
      → In x (names ++ rest) ↔ (IsOfType filter_type x × (P ⊎ Q))
  In-either names rest P Q first then_rest = (
    λ h. elim ((In-append x names rest).0 h) [
      | inl k ↦ let (of_type, p) = first.0 k in (of_type, inl p)
      | inr k ↦ let (of_type, q) = then_rest.0 k in (of_type, inr q)
    ],
    λ h. elim h.1 [
      | inl p ↦ (In-append x names rest).1 (inl (first.1 (h.0, p)))
      | inr q ↦ (In-append x names rest).1 (inr (then_rest.1 (h.0, q)))
    ],
  )

  In-name_in :
      (found : Option Json)
      → In x (wanted_name filter_type (name_in found)) ↔ (
          IsOfType filter_type x
          × ((name : String) × (found ≡ some (str name)) × (x ≡ take_chars 256 name)))
  unfolding name_in wanted_name
  In-name_in (some (str name)) =
      let (there, back) = In-wanted_name (take_chars 256 name) in
      (
        λ h. let (of_type, same) = there h in (of_type, (name, refl, same)),
        λ h.
            let (n, e, same) = h.1 in
            back (h.0, same ∙ ap (take_chars 256) (str-injective (some-injective (sym e)))),
      )
  In-name_in other = (λ h. absurd h, λ h. let (n, e, same) = h.1 in absurd cc)

  In-names_in :
      (models : Items)
      → In x (names_in filter_type models) ↔ (IsOfType filter_type x × HasName x models)
  unfolding names_in model_name_of
  In-names_in nil = (λ h. absurd h, λ h. h.1)
  In-names_in (cons (obj fields) models) =
      In-either _ _ _ (HasName x models) (In-name_in (find "name" fields)) (In-names_in models)
  In-names_in (cons other models) = In-names_in models

module _ (loads : String → Option Json) (filter_type : FilterType) (x : String) where
  In-names_of_servers :
      (servers : List ModelServer)
      → In x (names_of_servers loads filter_type (filter (λ s. s.is_active) servers))
        ↔ (IsOfType filter_type x × Listed loads x servers)
  unfolding names_of_servers filter models_list
  In-names_of_servers [] = (λ h. absurd h, λ h. h.1)
  In-names_of_servers (server ∷ servers) = elim (Bool-cases server.is_active) [
    | inl on ↦ rw on (
        let (there, back) = In-names_in filter_type x (models_list loads server) in
        In-either filter_type x (names_in filter_type (models_list loads server))
          (names_of_servers loads filter_type (filter (λ s. s.is_active) servers))
          ((true ≡ true) × HasName x (models_list loads server)) (Listed loads x servers)
          (λ h. let (of_type, named) = there h in (of_type, (refl, named)), λ h. back (h.0, h.1.1))
          (In-names_of_servers servers))
    | inr off ↦
        let (there, back) = In-names_of_servers servers in
        rw off (
          λ h. let (of_type, further) = there h in (of_type, inr further),
          λ h. elim h.1 [ inl k ↦ absurd (false-true k.0) | inr k ↦ back (h.0, k) ],
        )
  ]

  -- As long as there are at most 10000 of them, the names given are exactly those, cut to 256 characters,
  -- under which an active server lists a model, and which are of the type that is asked for: with
  -- `embed` in the name or without it, where a type is asked for.
  pub get_all_available_model_names_iff :
      (servers : List ModelServer)
      → length (sorted_set (names_of_servers loads filter_type (filter (λ s. s.is_active) servers)))
        ≤ 10000
      → In x (get_all_available_model_names loads filter_type servers)
        ↔ (IsOfType filter_type x × Listed loads x servers)
  unfolding get_all_available_model_names
  get_all_available_model_names_iff servers few =
      let names = names_of_servers loads filter_type (filter (λ s. s.is_active) servers) in
      let (into, out) = In-sorted_set x names in
      let (there, back) = In-names_of_servers servers in
      let whole : take 10000 (sorted_set names) ≡ sorted_set names =
        take_all 10000 (sorted_set names) few in
      (λ h. there (into (subst (In x) whole h)), λ h. subst (In x) (sym whole) (out (back h)))
