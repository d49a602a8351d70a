-- ===== src/Proxy/Endpoint/Named.antt =====
-- What `proxy_ollama` makes of a request that names a model.
use ollama_proxy_server.Prelude.{
  ◌≡◌, ap, true, false, ◌&&◌, List, map, String, name_error, ok, err, any, is_nil, ltb, size,
}
use ollama_proxy_server.Exec.{◌>>=◌}
use ollama_proxy_server.Json.{str}
use ollama_proxy_server.Servers.{models_list, has_named}
use ollama_proxy_server.Servers.Matching.{get_servers_with_model_raises}
use ollama_proxy_server.Proxy.Backend.{OllamaServer, get_active_servers}
use ollama_proxy_server.Proxy.Request.{check_path, read_body}
use ollama_proxy_server.Proxy.Routing.{Incoming}
use ollama_proxy_server.Proxy.Endpoint.{
  App, Setting, Prepared, loads_or_none, model_server, prepare, made_up, servers_with_model,
  proxy_ollama,
}

module _ {W : Type 0} (setting : Setting W) where
  named_raises :
      (name : String)
      → is_nil name ≡ false
      → ltb 256 (size name) ≡ false
      → any
          (λ s. s.is_active && has_named (models_list (loads_or_none setting.py) s))
          (map model_server setting.rows)
        ≡ true
      → servers_with_model setting (str name)
        ≡ err (name_error "name '_model_matches' is not defined")
  unfolding servers_with_model made_up
  named_raises name full short listed = ap (made_up setting) (
      get_servers_with_model_raises (loads_or_none setting.py) name (map model_server setting.rows)
        full short listed)

  -- Once an active server lists a model with a name, a request that names a model ends in a NameError,
  -- whatever the servers would answer: nothing is sent, nothing is logged and nothing else changes. The
  -- endpoint is not blocked, and the name, chosen for `auto` or not, has at most 256 characters.
  pub proxy_ollama_named :
      (request : Incoming) (app : App W) (servers : List OllamaServer) (path name : String)
      (prepared : Prepared)
      → get_active_servers (map (λ row. row.server) setting.rows) ≡ ok servers
      → check_path setting.blocked_ollama_endpoints request.path ≡ ok path
      → prepare setting request.body_bytes (read_body (loads_or_none setting.py) request.body_bytes)
        ≡ ok prepared
      → prepared.model_name ≡ str name
      → is_nil name ≡ false
      → ltb 256 (size name) ≡ false
      → any
          (λ s. s.is_active && has_named (models_list (loads_or_none setting.py) s))
          (map model_server setting.rows)
        ≡ true
      → proxy_ollama setting request app
        ≡ (err (name_error "name '_model_matches' is not defined"), app)
  unfolding proxy_ollama ◌>>=◌
  proxy_ollama_named request app servers path name prepared active allowed ready named full short
        listed =
      simp (active, allowed, ready, named, named_raises name full short listed)
