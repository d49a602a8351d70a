-- ===== src/Vllm/Request/Sanitized.antt =====
-- No text of a user can close the reasoning block: `</think>` does not occur in a sanitized message.
use ollama_proxy_server.Prelude.{
  ◌≡◌, refl, sym, ◌∙◌, ap, Bool, true, false, some, subst, ok-injective, some-injective, List, none,
  Option, Result, map, [], ◌∷◌, String, ok, replace, contains, All, if-false, if◌then◌else◌,
}
use ollama_proxy_server.Json.{
  get, Json, str, arr, obj, Fields, find, put, del_key, is_true, or_null, to_list, from_list,
}
use ollama_proxy_server.Json.Updates.{find-put, find-del_key, str-injective}
use ollama_proxy_server.Raises.{◌>>=◌, >>=-eq-ok}
use ollama_proxy_server.Vllm.{Python}
use ollama_proxy_server.Json.Dynamic.{get_if_in, or_else, get_or, assign_key, each, array, iterate}
use ollama_proxy_server.Vllm.Request.{
  is_system, any_system, system_message, with_prompt, sanitize, think_message, think_messages,
  image_part, text_part, is_full_text, attach_images, translate_images, translate_all_images,
  think_or_same, copy_options, translate_ollama_to_vllm_chat,
}
use ollama_proxy_server.Vllm.Request.Closing.{closing, contains-replace}

-- A text content of the message does not close the reasoning block, unless the message is the system's,
-- whose content has the prompt in front.
abbrev pub IsSanitized : Json → Type 0
IsSanitized (obj message) =
    is_system (or_null (find "role" message)) ≡ false
    → (content : String) → find "content" message ≡ some (str content)
    → contains "</think>" content ≡ false
IsSanitized other = Unit

sanitize-IsSanitized :
    (content : Json) (text : String)
    → sanitize content ≡ str text
    → contains "</think>" text ≡ false
unfolding sanitize replace
sanitize-IsSanitized (str s) text e =
    subst (λ t. contains closing t ≡ false) (str-injective e) (contains-replace 0 s)
sanitize-IsSanitized other text e = cc

module _ (py : Python) where
  content-IsSanitized :
      (message : Fields) (content : Json)
      → IsSanitized (
          obj (
            put "content"
              (with_prompt py (is_system (or_null (find "role" message))) (sanitize content))
              message))
  unfolding with_prompt
  content-IsSanitized message content plain text e =
      sanitize-IsSanitized content text (some-injective (sym kept ∙ e))
    where
      system : Bool
      system = is_system (or_null (find "role" message))

      not_system : system ≡ false
      not_system =
          ap (λ role. is_system (or_null role)) (sym (find-put "content" "role" _ message)) ∙ plain

      kept :
          find "content" (put "content" (with_prompt py system (sanitize content)) message)
          ≡ some (sanitize content)
      kept = find-put "content" "content" _ message ∙ ap some (if-false _ not_system)

  think_message-IsSanitized :
      (message made : Json) → think_message py message ≡ ok made → IsSanitized made
  unfolding think_message get_or get assign_key
  think_message-IsSanitized (obj message) made h =
      subst IsSanitized (ok-injective h) (content-IsSanitized message _)
  think_message-IsSanitized other made h = cc

  each-IsSanitized :
      (messages made : List Json)
      → each (think_message py) messages ≡ ok made
      → All IsSanitized made
  unfolding each
  each-IsSanitized [] made h = subst (All IsSanitized) (ok-injective h) tt
  each-IsSanitized (message ∷ messages) made h =
      let (first, e, h1) = >>=-eq-ok (think_message py message) _ h in
      let (rest, es, h2) = >>=-eq-ok (each (think_message py) messages) _ h1 in
      subst (All IsSanitized) (ok-injective h2)
        (think_message-IsSanitized message first e, each-IsSanitized messages rest es)

  think_messages-IsSanitized :
      (messages translated : Json)
      → think_messages py messages ≡ ok translated
      → (final_messages : List Json) × (translated ≡ array final_messages)
        × All IsSanitized final_messages
  unfolding think_messages system_message is_system find
  think_messages-IsSanitized messages translated h =
      let (items, _, h1) = >>=-eq-ok (iterate messages) _ h in
      let (made, all_made, h2) = >>=-eq-ok (each (think_message py) items) _ h1 in
      let (has_system_prompt, _, h3) = >>=-eq-ok (any_system py items) _ h2 in
      (
        if has_system_prompt then made else system_message py ∷ made,
        sym (ok-injective h3),
        with_system has_system_prompt made (each-IsSanitized items made all_made),
      )
    where
      role_of_system : is_system (str "system") ≡ true
      role_of_system = refl

      not_both : {b : Bool} → b ≡ true → b ≡ false → ⊥
      not_both e f = cc

      with_system :
          (has_system_prompt : Bool) (made : List Json)
          → All IsSanitized made
          → All IsSanitized (if has_system_prompt then made else system_message py ∷ made)
      with_system true made sane = sane
      with_system false made sane = (λ plain text e. absurd (not_both role_of_system plain), sane)

  attach-IsSanitized :
      (images message : Json) → IsSanitized message → IsSanitized (attach_images py images message)
  unfolding attach_images
  attach-IsSanitized (arr images) (obj fs) h =
      go (is_full_text py (or_null (find "content" fs))) refl
    where
      go :
          (full : Bool)
          → is_full_text py (or_null (find "content" fs)) ≡ full
          → IsSanitized (
              obj (
                del_key "images" (
                  if full
                  then put "content"
                      (array (
                        text_part py (or_null (find "content" fs))
                        ∷ map (image_part py) (to_list images)))
                      fs
                  else fs)))
      go true e plain text found =
          let gone : some (
                array (
                  text_part py (or_null (find "content" fs))
                  ∷ map (image_part py) (to_list images)))
              ≡ some (str text) =
            sym (find-del_key "images" "content" _ ∙ find-put "content" "content" _ fs) ∙ found in
          absurd cc
      go false e plain text found =
          h (ap (λ role. is_system (or_null role)) (sym (find-del_key "images" "role" fs)) ∙ plain)
            text (sym (find-del_key "images" "content" fs) ∙ found)
  attach-IsSanitized (arr images) other h = h
  attach-IsSanitized other message h = h

  translate_images-IsSanitized :
      (message made : Json)
      → translate_images py message ≡ ok made
      → IsSanitized message
      → IsSanitized made
  unfolding translate_images
  translate_images-IsSanitized message made e h =
      let (found, _, e1) = >>=-eq-ok (get_if_in "images" message) _ e in go found e1
    where
      go :
          (found : Option Json)
          → (elim found as (λ _. Result Json) [
            | none ↦ ok message
            | some images ↦ ok (attach_images py images message)
          ])
            ≡ ok made
          → IsSanitized made
      go none q = subst IsSanitized (ok-injective q) h
      go (some images) q = subst IsSanitized (ok-injective q) (attach-IsSanitized images message h)

  each-translate_images-IsSanitized :
      (messages made : List Json)
      → each (translate_images py) messages ≡ ok made
      → All IsSanitized messages
      → All IsSanitized made
  unfolding each
  each-translate_images-IsSanitized [] made e h = subst (All IsSanitized) (ok-injective e) tt
  each-translate_images-IsSanitized (message ∷ messages) made e h =
      let (first, e1, e2) = >>=-eq-ok (translate_images py message) _ e in
      let (rest, e3, e4) = >>=-eq-ok (each (translate_images py) messages) _ e2 in
      subst (All IsSanitized) (ok-injective e4) (
        translate_images-IsSanitized message first e1 h.0,
        each-translate_images-IsSanitized messages rest e3 h.1,
      )

  iterate-array : (xs : List Json) → iterate (array xs) ≡ ok xs
  unfolding iterate
  iterate-array [] = refl
  iterate-array (x ∷ xs) = ap (λ r. r >>= λ ys. ok (x ∷ ys)) (iterate-array xs)

  translate_all_images-IsSanitized :
      (messages : List Json) (translated : Json)
      → translate_all_images py (array messages) ≡ ok translated
      → All IsSanitized messages
      → (final : List Json) × (translated ≡ array final) × All IsSanitized final
  unfolding translate_all_images
  translate_all_images-IsSanitized messages translated e h =
      let (items, e1, e2) = >>=-eq-ok (iterate (array messages)) _ e in
      let (made, e3, e4) = >>=-eq-ok (each (translate_images py) items) _ e2 in
      (
        made,
        sym (ok-injective e4),
        each-translate_images-IsSanitized items made e3
            (subst (All IsSanitized) (ok-injective (sym (iterate-array messages) ∙ e1)) h),
      )

  -- Where a request asks for thinking and can be translated, its messages for the backend are a list in
  -- which no message, but those of the system, has a text as its content with `</think>` in it.
  pub translate_chat-IsSanitized :
      (ollama_payload translated : Fields)
      → is_true (or_null (find "think" ollama_payload)) ≡ true
      → translate_ollama_to_vllm_chat py ollama_payload ≡ ok translated
      → (final : List Json) × (find "messages" translated ≡ some (array final))
        × All IsSanitized final
  unfolding translate_ollama_to_vllm_chat think_or_same
  translate_chat-IsSanitized ollama_payload translated thinks h =
      let (with_options, _, h1) = >>=-eq-ok (copy_options _ _) _ h in
      let (final_messages, h2, h3) = >>=-eq-ok (think_or_same py _ _) _ h1 in
      let (messages, h4, h5) = >>=-eq-ok (translate_all_images py final_messages) _ h3 in
      let (sane, same, all_sane) = think_messages-IsSanitized _ final_messages (
        ap
          (λ b.
            if b
            then think_messages py (messages_of ollama_payload)
            else ok (messages_of ollama_payload))
          (sym thinks)
        ∙ h2) in
      let (final, made, all_final) =
        translate_all_images-IsSanitized sane messages
          (ap (translate_all_images py) (sym same) ∙ h4) all_sane in
      (
        final,
        ap (find "messages") (sym (ok-injective h5))
            ∙ find-put "messages" "messages" _ with_options
            ∙ ap some made,
        all_final,
      )
    where
      messages_of : Fields → Json
      messages_of payload = or_else (arr (from_list [])) (find "messages" payload)
