-- ===== src/Tests/Routes.antt =====
-- `_reverse_proxy` at two servers that do not answer.
use ollama_proxy_server.Prelude.{
  inl, inr, lower, ℕ, ◌+◌, ◌≡◌, refl, true, false, Option, none, some, List, [], ◌∷◌, String, http,
  other_error, Result, err, Exec, lookup,
}
use ollama_proxy_server.Json.{Json}
use ollama_proxy_server.Retry.{Host, RetryConfig}
use ollama_proxy_server.Proxy.Backend.{OllamaServer, Client, backend_request}
use ollama_proxy_server.Proxy.Backend.Headers.{backend_request_credentials}
use ollama_proxy_server.Proxy.Routing.{Gateway, Answer, Incoming, reverse_proxy}

abbrev pub server : ℕ → String → OllamaServer
server id name = record {
  id = id;
  name = name;
  url = "http://host:11434/";
  server_type = "ollama";
  is_active = true;
  encrypted_api_key = some "sealed";
}

abbrev pub two_servers : List OllamaServer
two_servers = server 1 "one" ∷ server 2 "two" ∷ []

abbrev pub unreachable : Client ℕ
unreachable = record {
  send = λ request w. (err (other_error "unreachable"), w + 1);
  aclose = λ response w. w;
  decrypt_data = λ sealed. "key";
  content_length = λ body. "2";
}

abbrev pub frozen : Host ℕ
frozen = record { clock = λ w. 0; sleep = λ d w. w }

abbrev no_vllm : OllamaServer → Exec ℕ Answer
no_vllm s w = (err (http 502 "no adapter"), w)

abbrev pub no_json : String → Option Json
no_json s = none

abbrev pub one_retry : RetryConfig
one_retry = record {
  max_retries = 1;
  total_timeout = 2000000;
  loading_timeout = 15000000;
  base_delay_ms = 50;
}

abbrev pub chat : Incoming
chat = record {
  method = "POST";
  path = "chat";
  headers = ("authorization", "Bearer op_caller") ∷ [];
  query_params = [];
  body_bytes = "{}";
}

abbrev pub start : Gateway ℕ
start = record { health_cache = []; backend_server_index = none; world = 0 }

abbrev result : Result (Answer × OllamaServer)
result =
    (reverse_proxy unreachable frozen no_json no_vllm one_retry false (some 1) chat two_servers
      start).0

backend_request_credentials_example :
    lookup "authorization"
      (backend_request unreachable (server 1 "one") "chat" "POST" chat.headers [] "{}").headers
    ≡ some "Bearer key"
unfolding lower
backend_request_credentials_example =
    backend_request_credentials unreachable (server 1 "one") "chat" "POST" chat.headers [] "{}"
      "authorization"
      (inr (inr (inr (inr (inr (inr (inr (inr (inr (inr (inr (inr (inr (inr (inl refl)))))))))))))))
