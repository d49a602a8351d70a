-- ===== src/Servers/Grouped.antt =====
-- app/crud/server_crud.py: `get_all_models_grouped_by_server`. A server whose list cannot be read is
-- passed over, as one without models is.
use Prim.Native.Nat.{Ordering, gt}
use Prim.Native.String.{compare}
use ollama_proxy_server.Prelude.{
  ◌≡◌, refl, ◌∙◌, inl, inr, false, Option, List, [], ◌∷◌, String, str_eq, is_nil, is_empty, take,
  take_chars, filter, All, All-filter_keep, Dict, lookup, insert, lookup-insert, if◌then◌else◌,
  if-false, Bool-cases,
}
use ollama_proxy_server.Json.{Json}
use ollama_proxy_server.Servers.{ModelServer, FilterType, embedding_only, models_list, names_in}

place_at : Ordering → String → String → List String → List String → List String
place_at gt name other names further = other ∷ further
place_at _ name other names further = name ∷ other ∷ names

place : String → List String → List String
unfolding place_at
place name [] = name ∷ []
place name (other ∷ names) = place_at (compare name other) name other names (place name names)

-- `sorted(server_models)`
unfoldable pub sorted_names : List String → List String
unfolding place
sorted_names [] = []
sorted_names (name ∷ names) = place name (sorted_names names)

-- `server.name[:128] if server.name else "Unknown"`
unfoldable pub safe_name : ModelServer → String
safe_name server = if is_nil server.name then "Unknown" else take_chars 128 server.name

module _ (loads : String → Option Json) (filter_type : FilterType) where
  unfoldable pub server_models : ModelServer → List String
  server_models server = take 5000 (names_in filter_type (models_list loads server))

  -- `grouped_models`, from what the servers before have left
  unfoldable pub grouped_models : List ModelServer → Dict (List String) → Dict (List String)
  grouped_models [] grouped = grouped
  grouped_models (server ∷ servers) grouped = grouped_models servers (
      if is_empty (server_models server)
      then grouped
      else insert (safe_name server) (sorted_names (server_models server)) grouped)

-- the model of the proxy's own, where the type is not that of embeddings
unfoldable pub proxy_features : FilterType → Dict (List String)
proxy_features embedding_only = []
proxy_features _ = ("Proxy Features", "auto" ∷ []) ∷ []

-- `final.update(grouped)`
unfoldable pub update_dict : Dict (List String) → Dict (List String) → Dict (List String)
update_dict final [] = final
update_dict final ((name, models) ∷ grouped) = update_dict (insert name models final) grouped

unfoldable pub get_all_models_grouped_by_server :
    (String → Option Json) → FilterType → List ModelServer → Dict (List String)
get_all_models_grouped_by_server loads filter_type servers =
    update_dict (proxy_features filter_type)
      (grouped_models loads filter_type (filter (λ s. s.is_active) servers) [])

abbrev Named : String → Dict (List String) → Type 0
Named name grouped = All (λ entry. str_eq entry.0 name ≡ false) grouped

Named-insert :
    (name key : String) (models : List String) (grouped : Dict (List String))
    → str_eq key name ≡ false
    → Named name grouped
    → Named name (insert key models grouped)
unfolding insert
Named-insert name key models [] k h = (k, tt)
Named-insert name key models ((other, old) ∷ grouped) k h = elim (Bool-cases (str_eq other key)) [
  | inl e ↦ rw e h
  | inr e ↦ rw e (h.0, Named-insert name key models grouped k h.1)
]

grouped_models-Named :
    (loads : String → Option Json) (filter_type : FilterType) (name : String)
    (servers : List ModelServer) (grouped : Dict (List String))
    → All (λ s. str_eq (safe_name s) name ≡ false) servers
    → Named name grouped
    → Named name (grouped_models loads filter_type servers grouped)
unfolding grouped_models
grouped_models-Named loads filter_type name [] grouped s h = h
grouped_models-Named loads filter_type name (server ∷ servers) grouped s h =
    grouped_models-Named loads filter_type name servers _ s.1
      (elim (Bool-cases (is_empty (server_models loads filter_type server))) [
        | inl e ↦ rw e h
        | inr e ↦ rw e (Named-insert name (safe_name server) _ grouped s.0 h)
      ])

lookup-update_dict :
    (name : String) (final grouped : Dict (List String))
    → Named name grouped
    → lookup name (update_dict final grouped) ≡ lookup name final
unfolding update_dict
lookup-update_dict name final [] h = refl
lookup-update_dict name final ((key, models) ∷ grouped) h =
    lookup-update_dict name (insert key models final) grouped h.1
    ∙ lookup-insert key name models final
    ∙ if-false _ h.0

-- The entry of the proxy's own features is what it was before the servers' entries were merged in, as
-- long as no server bears its name.
pub get_all_models_grouped_by_server-auto :
    (loads : String → Option Json) (filter_type : FilterType) (servers : List ModelServer)
    → All (λ s. str_eq (safe_name s) "Proxy Features" ≡ false) servers
    → lookup "Proxy Features" (get_all_models_grouped_by_server loads filter_type servers)
      ≡ lookup "Proxy Features" (proxy_features filter_type)
unfolding get_all_models_grouped_by_server
get_all_models_grouped_by_server-auto loads filter_type servers h =
    lookup-update_dict "Proxy Features" (proxy_features filter_type) _ (
      grouped_models-Named loads filter_type "Proxy Features" (filter (λ s. s.is_active) servers) []
        (All-filter_keep _ _ servers h) tt)
