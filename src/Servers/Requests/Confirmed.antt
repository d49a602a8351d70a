-- ===== src/Servers/Requests/Confirmed.antt =====
-- What a success of the deletion of a model means: the server has confirmed it.
use ollama_proxy_server.Prelude.{
  ℕ, ◌≡◌, refl, subst, ◌∙◌, ap, ◌⊎◌, inl, inr, true, false, Option, none, some, [], ◌∷◌, String,
  append, rstrip_slash, Error, http_status_error, Result, ok, err, Bool-cases, ok-injective, arith,
  if◌then◌else◌,
}
use ollama_proxy_server.Raises
use ollama_proxy_server.Proxy.Backend.{OllamaServer}
use ollama_proxy_server.Json.{str}
use ollama_proxy_server.Json.Dynamic.{object}
use ollama_proxy_server.Vllm.{Python}
use ollama_proxy_server.Servers.Http.{HttpRequest, HttpResponse, HttpClient, get_auth_headers}
use ollama_proxy_server.Servers.Requests.{
  Outcome, refusal, raise_for_status, request_for, ask, delete_outcome, delete, guarded, unexpected,
  delete_model_on_server,
}

module _ {W : Type 0} (py : Python) (client : HttpClient W) where
  -- The server has answered with a success, or that it does not have the model.
  abbrev pub IsConfirmed : Result HttpResponse → Type 0
  IsConfirmed (ok response) =
      (client.is_success response.status_code ≡ true) ⊎ (response.status_code ≡ 404)
  IsConfirmed (err (http_status_error status text)) = status ≡ 404
  IsConfirmed (err e) = ⊥

  -- The outcome is a success.
  abbrev IsSuccess : Result Outcome → Type 0
  IsSuccess (ok outcome) = outcome.success ≡ true
  IsSuccess (err e) = ⊥

  -- An outcome function that makes a success of a response and of the status 404 alone
  confirmed :
      (success_of : Result HttpResponse → Type 0)
      → ((status : ℕ) (text : String)
          → success_of (err (http_status_error status text))
          → status ≡ 404)
      → ((e : Error) → success_of (err e) → IsConfirmed (err e))
      → (r : Result HttpResponse) → success_of (Raises.◌>>=◌ r (raise_for_status py client))
      → IsConfirmed r
  unfolding raise_for_status
  confirmed success_of on_status on_error (ok response) h =
      elim (Bool-cases (client.is_success response.status_code)) [
        | inl good ↦ inl good
        | inr bad ↦ inr (
            on_status response.status_code response.text (
              subst success_of
                (ap
                  (λ b.
                    if b
                    then ok response
                    else err (http_status_error response.status_code response.text))
                  bad)
                h))
      ]
  confirmed success_of on_status on_error (err e) h = on_error e h

  delete_not_found :
      (model_name : String) (e : Error)
      → (delete_outcome py client model_name (err e)).success ≡ true
      → IsConfirmed (err e)
  unfolding delete_outcome unexpected
  delete_not_found model_name (http_status_error status text) h = ground (arith, h)
  delete_not_found model_name e h = cc

  -- The request that asks a server to delete a model
  abbrev pub deletion : OllamaServer → String → HttpRequest
  deletion server model_name = record {
    method = "DELETE";
    url = append (rstrip_slash server.url) "/api/delete";
    headers = get_auth_headers client server.encrypted_api_key;
    payload = some (object (("name", str model_name) ∷ []));
  }

  -- `delete_model_on_server` reports a success only if the tests at its top have passed and the server
  -- has answered a DELETE of /api/delete with the model's name with a success, or with the status 404,
  -- that it does not have the model.
  pub delete_model_on_server-IsConfirmed :
      (server : OllamaServer) (model_name : String) (w : W) (outcome : Outcome)
      → (delete_model_on_server py client server model_name w).0 ≡ ok outcome
      → outcome.success ≡ true
      → (refusal py "Deleting models is not supported for vLLM servers." server model_name ≡ none)
        × IsConfirmed (client.request (deletion server model_name) w).0
  unfolding delete_model_on_server guarded delete ask request_for
  delete_model_on_server-IsConfirmed server model_name w outcome returned h =
      go (refusal py "Deleting models is not supported for vLLM servers." server model_name) refl
        returned
    where
      go :
          (refused : Option String)
          → refusal py "Deleting models is not supported for vLLM servers." server model_name
            ≡ refused
          → (guarded py client refused (delete py client) server model_name w).0 ≡ ok outcome
          → (refusal py "Deleting models is not supported for vLLM servers." server model_name
              ≡ none)
            × IsConfirmed (client.request (deletion server model_name) w).0
      go (some message) tested e =
          let q : false ≡ true = ap (λ o. o.success) (ok-injective e) ∙ h in cc
      go none tested e = (
        tested,
        confirmed (λ r. (delete_outcome py client model_name r).success ≡ true)
            (λ status text q. delete_not_found model_name (http_status_error status text) q)
            (delete_not_found model_name) _ (ap (λ o. o.success) (ok-injective e) ∙ h),
      )
