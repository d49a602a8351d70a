-- ===== src/Proxy/Federation/Listed.antt =====
-- Each model that an active server lists is in the answer to /tags, under its name.
use ollama_proxy_server.Prelude.{
  ◌≡◌, refl, inl, inr, ◌∙◌, sym, ap, subst, true, Option, none, some, is_some, List, [], ◌∷◌, In,
  String, ok, ok-injective, filter, eq_iff, arith, Bool-cases,
}
use ollama_proxy_server.Raises.{>>=-eq-ok}
use ollama_proxy_server.Json.{Json, str, arr, obj, Fields, find}
use ollama_proxy_server.Servers.Running.{ServerRow}
use ollama_proxy_server.Vllm.{Python}
use ollama_proxy_server.Proxy.Federation.{
  Models, same_key, set_model, model_at, hashed, named, add_model, add_models, listed_models,
  add_servers, auto_model, all_models,
}

-- The table has an entry under the key.
abbrev pub Has : Json → Models → Type 0
Has key models = is_some (model_at key models) ≡ true

set_model-Has :
    (key : Json) (model : Json) (models : Models)
    → same_key key key ≡ true
    → Has key (set_model key model models)
unfolding set_model model_at
set_model-Has key model [] h = rw h refl
set_model-Has key model ((k, m) ∷ models) h = elim (Bool-cases (same_key k key)) [
  | inl same ↦ rw (same, same) refl
  | inr other ↦ rw (other, other) (set_model-Has key model models h)
]

set_model_keeps :
    (key other model : Json) (models : Models)
    → Has other models
    → Has other (set_model key model models)
unfolding set_model model_at
set_model_keeps key other model [] h = cc
set_model_keeps key other model ((k, m) ∷ models) h =
    ground (arith, set_model_keeps key other model models, h)

hashed_keeps :
    (key other model : Json) (models made : Models)
    → hashed key models model ≡ ok made
    → Has other models
    → Has other made
unfolding hashed
hashed_keeps (arr xs) other model models made e h = cc
hashed_keeps (obj fs) other model models made e h = cc
hashed_keeps key other model models made e h =
    subst (Has other) (ok-injective e) (set_model_keeps key other model models h)

add_model_keeps :
    (model other : Json) (models made : Models)
    → add_model model models ≡ ok made
    → Has other models
    → Has other made
unfolding add_model named
add_model_keeps (obj fields) other models made e h = go (find "name" fields) e
  where
    go : (name : Option Json) → named name fields models ≡ ok made → Has other made
    go none q = subst (Has other) (ok-injective q) h
    go (some name) q = hashed_keeps name other _ models made q h
add_model_keeps model other models made e h = subst (Has other) (ok-injective e) h

same_text : (name : String) → same_key (str name) (str name) ≡ true
unfolding same_key
same_text name = (eq_iff name name).1 refl

add_model-Has :
    (fields : Fields) (name : String) (models made : Models)
    → find "name" fields ≡ some (str name)
    → add_model (obj fields) models ≡ ok made
    → Has (str name) made
unfolding add_model named hashed
add_model-Has fields name models made is_named e =
    subst (Has (str name)) (ok-injective (ap (λ n. named n fields models) (sym is_named) ∙ e))
      (set_model-Has (str name) _ models (same_text name))

add_models_keeps :
    (items : List Json) (other : Json) (models made : Models)
    → add_models items models ≡ ok made
    → Has other models
    → Has other made
unfolding add_models
add_models_keeps [] other models made e h = subst (Has other) (ok-injective e) h
add_models_keeps (model ∷ items) other models made e h =
    let (added, e1, e2) = >>=-eq-ok (add_model model models) _ e in
    add_models_keeps items other added made e2 (add_model_keeps model other models added e1 h)

add_models-Has :
    (items : List Json) (fields : Fields) (name : String) (models made : Models)
    → In (obj fields) items
    → find "name" fields ≡ some (str name)
    → add_models items models ≡ ok made
    → Has (str name) made
unfolding add_models
add_models-Has [] fields name models made there is_named e = absurd there
add_models-Has (model ∷ items) fields name models made there is_named e =
    let (added, e1, e2) = >>=-eq-ok (add_model model models) _ e in
    elim there [
      | inl this ↦
          add_models_keeps items (str name) added made e2 (
            add_model-Has fields name models added is_named
              (ap (λ m. add_model m models) this ∙ e1))
      | inr later ↦ add_models-Has items fields name added made later is_named e2
    ]

module _ (py : Python) where
  add_servers_keeps :
      (rows : List ServerRow) (other : Json) (models made : Models)
      → add_servers py rows models ≡ ok made
      → Has other models
      → Has other made
  unfolding add_servers
  add_servers_keeps [] other models made e h = subst (Has other) (ok-injective e) h
  add_servers_keeps (row ∷ rows) other models made e h =
      let (found, e1, e2) = >>=-eq-ok (listed_models py row.available_models) _ e in
      let (added, e3, e4) = >>=-eq-ok (add_models found models) _ e2 in
      add_servers_keeps rows other added made e4 (add_models_keeps found other models added e3 h)

  add_servers-Has :
      (rows : List ServerRow) (row : ServerRow) (items : List Json) (fields : Fields)
      (name : String) (models made : Models)
      → In row rows
      → listed_models py row.available_models ≡ ok items
      → In (obj fields) items
      → find "name" fields ≡ some (str name)
      → add_servers py rows models ≡ ok made
      → Has (str name) made
  unfolding add_servers
  add_servers-Has [] row items fields name models made there listed inside is_named e = absurd there
  add_servers-Has (first ∷ rows) row items fields name models made there listed inside is_named e =
      let (found, e1, e2) = >>=-eq-ok (listed_models py first.available_models) _ e in
      let (added, e3, e4) = >>=-eq-ok (add_models found models) _ e2 in
      elim there [
        | inl this ↦ add_servers_keeps rows (str name) added made e4 (
            add_models-Has found fields name models added
              (subst (In (obj fields))
                (ok-injective
                  (sym listed ∙ ap (λ r. listed_models py r.available_models) this ∙ e1))
                inside)
              is_named e3)
        | inr later ↦
            add_servers-Has rows row items fields name added made later listed inside is_named e4
      ]

  -- Where /tags answers, each model with a text for a name that an active server lists has an entry
  -- under that name, and so has `auto`, whatever the other servers list.
  pub all_models-Has :
      (modified_at : String) (rows : List ServerRow) (row : ServerRow) (items : List Json)
      (fields : Fields) (name : String) (models : Models)
      → In row (filter (λ r. r.server.is_active) rows)
      → listed_models py row.available_models ≡ ok items
      → In (obj fields) items
      → find "name" fields ≡ some (str name)
      → all_models py modified_at rows ≡ ok models
      → Has (str name) models × Has (str "auto") models
  unfolding all_models
  all_models-Has modified_at rows row items fields name models there listed inside is_named e =
      let (loop, e1, e2) =
        >>=-eq-ok (add_servers py (filter (λ r. r.server.is_active) rows) []) _ e in
      (
        subst (Has (str name)) (ok-injective e2) (
            set_model_keeps (str "auto") (str name) (auto_model py modified_at) loop (
              add_servers-Has (filter (λ r. r.server.is_active) rows) row items fields name [] loop
                there listed inside is_named e1)),
        subst (Has (str "auto")) (ok-injective e2)
            (set_model-Has (str "auto") (auto_model py modified_at) loop (same_text "auto")),
      )
