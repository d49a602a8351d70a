-- ===== src/Services/Idempotency.antt =====
-- app/core/idempotency.py: `IdempotencyManager`. The Redis is the dictionary of the entries that have
-- not run out. `loads` is `json.loads`, none where it raises, and `dumps` is `json.dumps`.
use ollama_proxy_server.Prelude.{
  ◌≡◌, refl, ap, ◌∙◌, Bool, true, false, Option, none, some, String, json_decode_error, Result, ok,
  err, eq_iff, append, is_nil, Dict, lookup, insert, lookup-insert, if◌then◌else◌,
}
use ollama_proxy_server.Json.{Json, str, obj, end, field}

unfoldable pub cache_key : String → String → String
cache_key key operation = append "idempotency:" (append operation (append ":" key))

abbrev pub pending : Json
pending = obj (field "status" (str "pending") end)

abbrev pub completed : Json → Json
completed result = obj (field "status" (str "completed") (field "result" result end))

module _ (loads : String → Option Json) (dumps : Json → String) where
  loaded : Option Json → Result (Bool × Option Json)
  loaded none = err (json_decode_error "Expecting value")
  loaded (some result) = ok (false, some result)

  -- for what `redis.get` gives: is it new, and the cached result
  check_cached : String → Option String → Dict String → Result (Bool × Option Json) × Dict String
  check_cached k none redis = (ok (true, none), insert k (dumps pending) redis)
  check_cached k (some cached) redis =
      if is_nil cached
      then (ok (true, none), insert k (dumps pending) redis)
      else (loaded (loads cached), redis)

  unfoldable pub check_or_create :
      String → String → Dict String → Result (Bool × Option Json) × Dict String
  unfolding check_cached loaded
  check_or_create key operation redis =
      check_cached (cache_key key operation) (lookup (cache_key key operation) redis) redis

  unfoldable pub complete_operation : String → String → Json → Dict String → Dict String
  complete_operation key operation result redis =
      insert (cache_key key operation) (dumps (completed result)) redis

  check_stored :
      (k : String) (value : Json) (redis : Dict String)
      → loads (dumps value) ≡ some value
      → is_nil (dumps value) ≡ false
      → check_cached k (lookup k (insert k (dumps value) redis)) (insert k (dumps value) redis)
        ≡ (ok (false, some value), insert k (dumps value) redis)
  unfolding check_cached loaded
  check_stored k value redis round full =
      rw (lookup-insert k k (dumps value) redis) (rw ((eq_iff k k).1 refl) (rw (full, round) refl))

  -- An operation is new once: where nothing is stored for it, the first check says so, the next one
  -- gives the pending state, and one behind its completion gives the result, if `loads` reads back what
  -- `dumps` writes for these two values and that is not empty.
  pub check_or_create_once :
      (key operation : String) (result : Json) (redis : Dict String)
      → loads (dumps pending) ≡ some pending
      → loads (dumps (completed result)) ≡ some (completed result)
      → is_nil (dumps pending) ≡ false
      → is_nil (dumps (completed result)) ≡ false
      → lookup (cache_key key operation) redis ≡ none
      → (let (first, redis') = check_or_create key operation redis in
          let redis'' = complete_operation key operation result redis' in
          (first ≡ ok (true, none))
          × ((check_or_create key operation redis').0 ≡ ok (false, some pending))
          × ((check_or_create key operation redis'').0 ≡ ok (false, some (completed result))))
  unfolding check_or_create complete_operation
  check_or_create_once key operation result redis round round' full full' fresh =
      let k = cache_key key operation in
      let made : check_cached k (lookup k redis) redis
          ≡ (ok (true, none), insert k (dumps pending) redis) =
        ap (λ (found : Option String). check_cached k found redis) fresh in
      (
        ap (λ (p : Result (Bool × Option Json) × Dict String). p.0) made,
        ap
              (λ (p : Result (Bool × Option Json) × Dict String).
                (check_cached k (lookup k p.1) p.1).0)
              made
            ∙ ap (λ (p : Result (Bool × Option Json) × Dict String). p.0)
                (check_stored k pending redis round full),
        ap (λ (p : Result (Bool × Option Json) × Dict String). p.0)
            (check_stored k (completed result) _ round' full'),
      )
