-- ===== src/Access/RateLimits.antt =====
-- app/api/v1/dependencies.py: `rate_limiter` and `login_rate_limiter`. Redis is a parameter: each
-- command takes the state `W` of the world, changes it, and may raise.
use ollama_proxy_server.Prelude.{
  ℕ, ◌*◌, ◌≡◌, Bool, true, false, Option, none, some, String, http, ok, err, Exec, pure, raise,
  append, leb, ltb, ◌==◌, if◌then◌else◌,
}
use ollama_proxy_server.Exec.{◌>>=◌, ◌>>◌}
use ollama_proxy_server.Access.ApiKeys.{ApiKey}

pub record Redis (W : Type 0) : Type 0 where
  pub incr : String → Exec W ℕ
  pub get : String → Exec W (Option ℕ)
  pub expire : String → ℕ → Exec W (Unit {0})
  pub ttl : String → Exec W ℕ

pub record RateSettings : Type 0 where
  pub rate_limit_requests : ℕ
  pub rate_limit_window_minutes : ℕ

-- `except Exception as e: logger.error(…)`, and `return True` behind it. `HTTPException` is an
-- `Exception`, too.
unfoldable pub logged : {W : Type 0} → Exec W (Unit {0}) → Exec W Bool
logged body w = let (r, w') = body w in (ok true, w')

-- `limit, window_minutes`: the key's own pair, or the settings'
own_limits : Option ℕ → Option ℕ → RateSettings → ℕ × ℕ
own_limits (some limit) (some window) settings = (limit, window)
own_limits _ _ settings = (settings.rate_limit_requests, settings.rate_limit_window_minutes)

unfoldable pub limits_of : ApiKey → RateSettings → ℕ × ℕ
unfolding own_limits
limits_of key settings = own_limits key.rate_limit_requests key.rate_limit_window_minutes settings

module _ {W : Type 0} where
  start_window : Redis W → String → ℕ → ℕ → Exec W (Unit {0})
  start_window redis key window current = if current == 1 then redis.expire key window else pure tt

  refuse_above : Redis W → String → ℕ → ℕ → Exec W (Unit {0})
  refuse_above redis key limit current =
      if ltb limit current
      then (redis.ttl key >>= λ ttl. raise (http 429 "Rate limit exceeded."))
      else pure tt

  -- the `try` block
  unfoldable pub count_request : Redis W → String → ℕ → ℕ → Exec W (Unit {0})
  unfolding start_window refuse_above
  count_request redis key limit window = do
    current ← redis.incr key
    start_window redis key window current
    refuse_above redis key limit current

  unfoldable pub rate_limiter : Option (Redis W) → ApiKey → RateSettings → Exec W Bool
  rate_limiter none key settings = pure true
  rate_limiter (some redis) key settings =
      let (limit, window_minutes) = limits_of key settings in
      logged (count_request redis (append "rate_limit:" key.key_prefix) limit (window_minutes * 60))

  refuse_fails : Redis W → String → Option ℕ → Exec W (Unit {0})
  refuse_fails redis key none = pure tt
  refuse_fails redis key (some fails) =
      if leb 5 fails
      then (redis.ttl key >>= λ ttl. raise (http 429 "Too many failed login attempts."))
      else pure tt

  unfoldable pub check_fails : Redis W → String → Exec W (Unit {0})
  unfolding refuse_fails
  check_fails redis key = do fails ← redis.get key; refuse_fails redis key fails

  unfoldable pub login_rate_limiter : Option (Redis W) → String → Exec W Bool
  login_rate_limiter none client_ip = pure true
  login_rate_limiter (some redis) client_ip =
      logged (check_fails redis (append "login_fail:" client_ip))

-- The counting itself would refuse: a request that is counted above the limit raises 429 in the `try`
-- block, if Redis answers.
pub count_request_refuses :
    {W : Type 0} (redis : Redis W) (key : String) (limit window current ttl : ℕ) (w w' w'' : W)
    → redis.incr key w ≡ (ok current, w')
    → (current == 1) ≡ false
    → ltb limit current ≡ true
    → redis.ttl key w' ≡ (ok ttl, w'')
    → count_request redis key limit window w ≡ (err (http 429 "Rate limit exceeded."), w'')
unfolding count_request ◌>>=◌
count_request_refuses redis key limit window current ttl w w' w'' counted first above left =
    rw (counted, first, above, left)
