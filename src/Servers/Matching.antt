-- ===== src/Servers/Matching.antt =====
-- `get_servers_with_model` once a server lists a model.
use ollama_proxy_server.Prelude.{
  ◌≡◌, refl, sym, ◌∙◌, ap, inl, inr, Bool, true, false, ◌&&◌, ◌||◌, Option, none, some, List, [],
  ◌∷◌, String, name_error, Result, ok, err, any, filter, is_nil, is_some, ltb, size, Bool-cases,
  if-true, if-false, subst, arith,
}
use ollama_proxy_server.Raises.{◌>>=◌}
use ollama_proxy_server.Json.{Json, obj, Items, nil, cons, find}
use ollama_proxy_server.Servers.{
  ModelServer, models_list, match_name, match_models, has_named, match_servers,
  get_servers_with_model,
}

abbrev undefined : {A : Type 0} → Result A
undefined = err (name_error "name '_model_matches' is not defined")

match_name-is_some :
    (name : Option Json) (rest : Result (Unit {0})) (more : Bool)
    → ((more ≡ true → rest ≡ undefined) × (more ≡ false → rest ≡ ok tt))
    → ((is_some name || more) ≡ true → match_name name rest ≡ undefined)
      × ((is_some name || more) ≡ false → match_name name rest ≡ ok tt)
unfolding match_name
match_name-is_some none rest more h = h
match_name-is_some (some name) rest more h = (λ k. refl, λ k. cc)

match_models-has_named :
    (models : Items)
    → (has_named models ≡ true → match_models models ≡ undefined)
      × (has_named models ≡ false → match_models models ≡ ok tt)
unfolding match_models has_named
match_models-has_named nil = (λ h. cc, λ h. refl)
match_models-has_named (cons (obj fields) models) =
    match_name-is_some (find "name" fields) (match_models models) (has_named models)
      (match_models-has_named models)
match_models-has_named (cons other models) = match_models-has_named models

match_servers_raises :
    (loads : String → Option Json) (servers : List ModelServer)
    → any (λ s. s.is_active && has_named (models_list loads s)) servers ≡ true
    → match_servers loads (filter (λ s. s.is_active) servers) ≡ undefined
unfolding match_servers filter any
match_servers_raises loads [] h = cc
match_servers_raises loads (server ∷ servers) h = elim (Bool-cases server.is_active) [
  | inl on ↦
      subst (λ (kept : List ModelServer). match_servers loads kept ≡ undefined)
        (sym (if-true (filter (λ s. s.is_active) servers) on))
        (elim (Bool-cases (has_named (models_list loads server))) [
          | inl named ↦
              ap
                (λ (r : Result (Unit {0})).
                  r >>= λ done. match_servers loads (filter (λ s. s.is_active) servers))
                ((match_models-has_named (models_list loads server)).0 named)
          | inr unnamed ↦
              ap
                (λ (r : Result (Unit {0})).
                  r >>= λ done. match_servers loads (filter (λ s. s.is_active) servers))
                ((match_models-has_named (models_list loads server)).1 unnamed)
              ∙ match_servers_raises loads servers (later h unnamed)
        ])
  | inr off ↦
      subst (λ (kept : List ModelServer). match_servers loads kept ≡ undefined)
        (sym (if-false (server ∷ filter (λ s. s.is_active) servers) off))
        (match_servers_raises loads servers (skipped h off))
]
  where
    later :
        ((server.is_active && has_named (models_list loads server))
            || any (λ s. s.is_active && has_named (models_list loads s)) servers)
          ≡ true
        → has_named (models_list loads server) ≡ false
        → any (λ s. s.is_active && has_named (models_list loads s)) servers ≡ true
    later k unnamed = ground (arith, k, unnamed)

    skipped :
        ((server.is_active && has_named (models_list loads server))
            || any (λ s. s.is_active && has_named (models_list loads s)) servers)
          ≡ true
        → server.is_active ≡ false
        → any (λ s. s.is_active && has_named (models_list loads s)) servers ≡ true
    skipped k off = ground (arith, k, off)

-- A lookup by any name of up to 256 characters raises a NameError if some active server lists a model
-- with a name, whatever the two names are.
pub get_servers_with_model_raises :
    (loads : String → Option Json) (model_name : String) (servers : List ModelServer)
    → is_nil model_name ≡ false
    → ltb 256 (size model_name) ≡ false
    → any (λ s. s.is_active && has_named (models_list loads s)) servers ≡ true
    → get_servers_with_model loads model_name servers ≡ undefined
unfolding get_servers_with_model
get_servers_with_model_raises loads model_name servers some_text short h =
    rw (some_text, short) (rw (match_servers_raises loads servers h) refl)
