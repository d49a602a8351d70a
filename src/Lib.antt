-- ===== src/Lib.antt =====
-- Verification of the Ollama proxy server: the reverse proxy in front of several Ollama and vLLM
-- backends, and the dependencies that decide who may use it.
--
-- A request for the proxy passes the dependencies of app/api/v1/dependencies.py: the address filter, the
-- API key and the rate limiter. The route of app/api/v1/routes/proxy.py then chooses a backend, sends the
-- request on with the retries of app/core/retry.py, goes to the next backend on a failure, and wraps a
-- streamed answer, so that the client receives it while its token counts are written to the usage log.
--
-- The files and the code that they model:
-- - Prelude and its children, Raises, Exec: shared names, texts, lists, dictionaries, Python's exceptions
--   as the type Error, code that may raise as Result, and code that also changes a state as Exec.
-- - Json: the values of json.loads and the dynamic operations on them.
-- - Retry: app/core/retry.py, RetryConfig, RetryResult and retry_with_backoff. The clock and the sleep
--   are a Host; times are whole microseconds. The loop goes by the number of rounds that are left.
-- - Lines: the line buffering of the stream readers, with and without the guard of the token tracker.
-- - Proxy/Tokens: app/api/v1/routes/proxy.py, _extract_tokens_from_chunk.
-- - Proxy/Tracking: the same file, _wrap_response_for_token_tracking. The generator is a function from
--   the backend's chunks to the chunks that it yields and its state at the end.
-- - Proxy/Backend: the same file, the health cache, get_active_servers, _send_backend_request and
--   _is_streaming_response. The HTTP client and the decryption of keys are a Client.
-- - Proxy/Routing: the same file, _reverse_proxy: the candidates, the round robin, the attempt at one
--   server, the failover. The loop has as many rounds as there are candidates, which is enough since each
--   failure takes one candidate out.
-- - Proxy/AutoModel: the same file, _select_auto_model.
-- - Proxy/Request: the same file, the beginning of proxy_ollama, and _async_log_usage.
-- - Servers: app/crud/server_crud.py, get_all_available_model_names and get_servers_with_model; in
--   Grouped, get_all_models_grouped_by_server; in SafeUrl, _is_safe_url; in
--   Table, create_server, update_server and delete_server; in Requests, the operations on the models
--   of a server; in Running, the models that run and the health checks; in Entries
--   and Fetch, fetch_and_update_models and refresh_all_server_models. Http is the HTTP client.
-- - Usage: app/crud/log_crud.py, create_usage_log and update_usage_log_with_tokens.
-- - Services: app/core/phase_rollback.py is Rollback, app/core/adaptive_batch.py is Batching,
--   app/core/cost_tracker.py is Costs, app/services/context_diff.py is Contexts,
--   app/core/idempotency.py is Idempotency, app/services/approval_gateway.py is Approvals, a machine
--   over the events of its coroutines, app/core/streaming_parser.py is Parser, whose inner loop has as
--   much fuel as the buffer has characters, which is enough since each round drops one, and
--   app/services/verification_engine.py is Verification.
-- - Proxy/Endpoint: app/api/v1/routes/proxy.py, proxy_ollama, which joins the parts. A Setting holds
--   what it takes from the dependencies and the database, an App the state that it changes.
-- - Proxy/Federation: app/api/v1/routes/proxy.py, federate_models, the answer to /tags.
-- - Vllm: the adapter for vLLM servers. Request, ToolArgs, Events, Stream and Response are
--   app/core/vllm_translator.py, the translation of requests, of the stream of events and of other
--   answers; Route and Generator are _proxy_to_vllm of app/api/v1/routes/proxy.py, the request up to
--   the answer, and the generator that passes a stream on. Python's JSON and times are a Python.
-- - Access: app/api/v1/dependencies.py and app/crud/apikey_crud.py. IpFilter is ip_filter; Csrf is
--   get_csrf_token and the two validate_csrf_token; ApiKeys is get_valid_api_key with the keys' table;
--   RateLimits is rate_limiter and login_rate_limiter, over a Redis.
-- - Migrations: app/database/migrations.py, auto_migrate_table with the checks of identifiers and of
--   column definitions, whose regular expressions are values of a type Regex, and the tables that
--   run_all_migrations names. The database is an Engine.
-- - Tests: the instances of the theorems at concrete inputs.
--
-- What stands outside: json.loads, the HTTP client, bcrypt, Fernet and Redis are arguments of the
-- definitions. The adapter for vLLM servers, _proxy_to_vllm, is an argument of Routing and is put in by
-- Vllm/Failover. Texts change case in ASCII only. Log lines are left out, and so are the cut texts of
-- exceptions. Requests that the code gathers run one after the other.
--
-- Not modelled: the administration pages and the playgrounds (pages and forms over the other parts), the
-- statistics of app/crud/log_crud.py (queries that the database aggregates), the rest of the
-- migrations (settings, indexes, a report) and the database's engine, the catalog of models, start-up and logging.
pub mod Prelude
pub mod Raises
pub mod Exec
pub mod Retry
pub mod Json
pub mod Lines
pub mod Proxy
pub mod Access
pub mod Usage
pub mod Migrations
pub mod Vllm
pub mod Servers
pub mod Services
pub mod Tests
