-- ===== src/Proxy/Request/Think.antt =====
-- What becomes of `think` and of the other fields of a request.
use ollama_proxy_server.Prelude.{
  ◌≡◌, refl, true, false, none, String, ok, str_eq, is_nil, if◌then◌else◌,
}
use ollama_proxy_server.Json.{Json, str, obj, Fields, find, del_key, has_key}
use ollama_proxy_server.Json.Updates.{find-del_key}
use ollama_proxy_server.Proxy.Request.{knows_think, think_of, handle_think}

-- A request for a model that is not known to support `think` goes on without it: the new body has no
-- such field, each other field is as it was, and the text that is sent is that of the new body.
pub handle_think_removed :
    (dumps : Json → String) (model_name : String) (body : Fields) (body_bytes : String)
    → is_nil model_name ≡ false
    → knows_think model_name ≡ false
    → has_key "think" body ≡ true
    → (body' : Fields) × (handle_think dumps (str model_name) body body_bytes
        ≡ ok (body', dumps (obj body')))
      × ((other : String)
          → find other body' ≡ (if str_eq "think" other then none else find other body))
unfolding handle_think think_of
handle_think_removed dumps model_name body body_bytes named unknown there = (
  del_key "think" body,
  rw (named, there) (rw unknown refl),
  λ other. find-del_key "think" other body,
)
