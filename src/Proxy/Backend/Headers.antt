-- ===== src/Proxy/Backend/Headers.antt =====
-- Which of a caller's headers reach a backend.
use ollama_proxy_server.Prelude.{
  ◌≡◌, ◌≢◌, refl, ◌∙◌, ap, sym, inl, inr, Bool, true, false, ◌||◌, Option, none, some, List, [],
  ◌∷◌, lower, any, In, subst, String, str_eq, eq_iff, is_nil, append, Dict, insert, lookup,
  lookup-insert, if◌then◌else◌, Bool-cases,
}
use ollama_proxy_server.Proxy.Backend.{
  OllamaServer, Client, hop_by_hop, is_dropped, keep_headers, authorize, backend_request,
}

to_same : (j k : String) → str_eq j k ≡ true → j ≡ k
to_same j k e = (eq_iff j k).0 e

true-false : true ≢ false
true-false h = cc

kept_other : (j k : String) → is_dropped j ≡ false → is_dropped k ≡ true → str_eq j k ≡ false
kept_other j k e d = elim (Bool-cases (str_eq j k)) [
  | inl same ↦ absurd (true-false (sym d ∙ ap is_dropped (sym (to_same j k same)) ∙ e))
  | inr other ↦ other
]

-- A header that is dropped stays what it was in the headers collected so far.
keep_headers-lookup :
    (k : String) (headers request_headers : Dict String)
    → is_dropped k ≡ true
    → lookup k (keep_headers headers request_headers) ≡ lookup k request_headers
unfolding keep_headers
keep_headers-lookup k [] request_headers d = refl
keep_headers-lookup k ((j, v) ∷ headers) request_headers d = elim (Bool-cases (is_dropped j)) [
  | inl e ↦ rw e (keep_headers-lookup k headers request_headers d)
  | inr e ↦ rw e (
      keep_headers-lookup k headers (insert j v request_headers) d
      ∙ lookup-insert j k v request_headers
      ∙ rw (kept_other j k e d) refl)
]

-- The header's value by a server's own key: none without a key, or where it cannot be decrypted
abbrev pub own_key : {W : Type 0} → Client W → Option String → Option String
own_key client none = none
own_key client (some encrypted) =
    if is_nil encrypted || is_nil (client.decrypt_data encrypted)
    then none
    else some (append "Bearer " (client.decrypt_data encrypted))

if-both : {A : Type 0} (b : Bool) (x : A) → (if b then x else x) ≡ x
if-both true x = refl
if-both false x = refl

authorize-lookup :
    {W : Type 0} (client : Client W) (key : Option String) (k : String)
    (request_headers : Dict String)
    → lookup k request_headers ≡ none
    → lookup k (authorize client key request_headers)
      ≡ (if str_eq "authorization" k then own_key client key else none)
unfolding authorize
authorize-lookup client none k hs h =
    rw (if-both {A = Option String} (str_eq "authorization" k) none) h
authorize-lookup client (some e) k hs h =
    elim (Bool-cases (is_nil e || is_nil (client.decrypt_data e))) [
      | inl bare ↦ rw bare (rw (if-both {A = Option String} (str_eq "authorization" k) none) h)
      | inr keyed ↦ rw keyed (lookup-insert "authorization" k _ hs ∙ rw h refl)
    ]

sized-lookup :
    {W : Type 0} (client : Client W) (headers : Dict String) (body_bytes k : String)
    → is_dropped k ≡ true
    → str_eq "content-length" k ≡ false
    → lookup k (
        if is_nil body_bytes
        then keep_headers headers []
        else insert "content-length" (client.content_length body_bytes) (keep_headers headers []))
      ≡ none
unfolding lookup
sized-lookup client headers body_bytes k d l =
    let kept : lookup k (keep_headers headers []) ≡ none = keep_headers-lookup k headers [] d in
    elim (Bool-cases (is_nil body_bytes)) [
      | inl e ↦ rw e kept
      | inr e ↦ rw e (lookup-insert "content-length" k _ (keep_headers headers []) ∙ rw l kept)
    ]

-- The headers that are for one hop or tell of the caller, in small letters
abbrev pub withheld : List String
withheld =
    "host" ∷ "connection" ∷ "keep-alive" ∷ "proxy-authenticate" ∷ "proxy-authorization" ∷ "te"
    ∷ "trailers" ∷ "transfer-encoding" ∷ "upgrade" ∷ "x-forwarded-for" ∷ "x-forwarded-host"
    ∷ "x-forwarded-proto" ∷ "x-real-ip" ∷ "cookie" ∷ "authorization" ∷ []

any-In :
    (name : String) (names : List String) → In name names → any (λ h. str_eq h name) names ≡ true
unfolding any
any-In name [] there = absurd there
any-In name (x ∷ names) (inl same) = rw ((eq_iff x name).1 (sym same)) refl
any-In name (x ∷ names) (inr there) = rw (any-In name names there) (or_true (str_eq x name))
  where
    or_true : (b : Bool) → (b || true) ≡ true
    or_true true = refl
    or_true false = refl

withheld-dropped : (k : String) → In (lower k) withheld → is_dropped k ≡ true
unfolding is_dropped hop_by_hop
withheld-dropped k there = rw (any-In (lower k) withheld there) refl

no_length : (k : String) → In (lower k) withheld → str_eq "content-length" k ≡ false
unfolding any lower
no_length k there = elim (Bool-cases (str_eq "content-length" k)) [
  | inl same ↦
      let wrong : any (λ h. str_eq h (lower "content-length")) withheld ≡ true =
        subst (λ n. any (λ h. str_eq h (lower n)) withheld ≡ true)
          (sym (to_same "content-length" k same)) (any-In (lower k) withheld there) in
      absurd (true-false (sym wrong))
  | inr other ↦ other
]

-- A caller's header whose name is one of those withheld, in any case of letters, does not reach a
-- backend: the request has `authorization` only with the server's own key, where it has one that can be
-- decrypted, and none of the others.
pub backend_request_credentials :
    {W : Type 0} (client : Client W) (server : OllamaServer) (path method : String)
    (headers query_params : Dict String) (body_bytes k : String)
    → In (lower k) withheld
    → lookup k (backend_request client server path method headers query_params body_bytes).headers
      ≡ (if str_eq "authorization" k then own_key client server.encrypted_api_key else none)
unfolding backend_request
backend_request_credentials client server path method headers query_params body_bytes k there =
    authorize-lookup client server.encrypted_api_key k _
      (sized-lookup client headers body_bytes k (withheld-dropped k there) (no_length k there))
