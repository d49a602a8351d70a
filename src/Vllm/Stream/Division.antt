-- ===== src/Vllm/Stream/Division.antt =====
-- The translated stream does not depend on how the backend's text is cut into chunks, and ends at the
-- first event that says so.
use Prim.Native.Char.{code}
use text.Mathlib.TextLemmas.{nil-append, append_assoc}
use ollama_proxy_server.Prelude.{
  not, ◌&&◌, str_eq, ◌≡◌, refl, ◌∙◌, sym, ap, true, false, List, [], ◌∷◌, ◌++◌, String, Result, ok,
  err, Exec, continue, if-true, if-false, strip, drop_while, drop_end, is_space, pure, append, inl,
  inr, Bool-cases, ◌==◌, arith,
}
use ollama_proxy_server.Exec.{bind_ok, bind_returns, ◌>>=◌, bind_same}
use ollama_proxy_server.Lines.{read_chunk}
use ollama_proxy_server.Lines.Split.{nl}
use ollama_proxy_server.Lines.Chunks.{
  feed-newline, read_all, concat, feed, feed-append, read_all-feed, read_all-concat,
}
use ollama_proxy_server.Vllm.{Python}
use ollama_proxy_server.Vllm.Events.{Translator}
use ollama_proxy_server.Vllm.Stream.{
  stop, send_done, handle_line, translate_line, translate_rest, vllm_stream_to_ollama_stream,
}

read_one :
    {T : Type 0} (process : String → Exec T (Unit {0})) (text : String) (t : T)
    → read_all (read_chunk process) "" (text ∷ []) t ≡ read_chunk process "" text t
unfolding ◌>>=◌
read_one {T} process text t = go (read_chunk process "" text t).0 (read_chunk process "" text t).1
  where
    go : (r : Result String) (s : T) → continue r pure s ≡ (r, s)
    go (ok a) s = refl
    go (err e) s = refl

module _ (py : Python) (model_name : String) where
  -- Wherever the backend's text is cut into chunks, the translation yields the same lines, raises the
  -- same error, if any, and leaves the same variables behind as for the text in one chunk.
  pub vllm_stream-concat :
      (chunks : List String) (s : Translator)
      → vllm_stream_to_ollama_stream py model_name chunks s
        ≡ vllm_stream_to_ollama_stream py model_name (concat chunks ∷ []) s
  unfolding vllm_stream_to_ollama_stream
  vllm_stream-concat chunks s = bind_same _ _ (translate_rest py model_name) s (
      read_all-concat (translate_line py model_name) chunks s
      ∙ sym (read_one (translate_line py model_name) (concat chunks) s))

  -- The stream as one text, read character by character.
  pub vllm_stream-feed :
      (chunks : List String) (s : Translator)
      → vllm_stream_to_ollama_stream py model_name chunks s
        ≡ (feed (translate_line py model_name) "" (concat chunks) >>= translate_rest py model_name)
            s
  unfolding vllm_stream_to_ollama_stream
  vllm_stream-feed chunks s =
      bind_same _ _ (translate_rest py model_name) s
        (read_all-feed (translate_line py model_name) "" chunks s tt)

  translate_line-returned :
      (line : String) (s : Translator)
      → s.returned ≡ true
      → translate_line py model_name line s ≡ (ok tt, s)
  unfolding translate_line
  translate_line-returned line s h = if-true _ h

  -- After `return` no text changes anything.
  feed_returned :
      (buffer text : String) (s : Translator)
      → s.returned ≡ true
      → (kept : String) × (feed (translate_line py model_name) buffer text s ≡ (ok kept, s))
  unfolding feed ◌>>=◌
  feed_returned buffer String.[] s h = (buffer, refl)
  feed_returned buffer (String.◌∷◌ c text) s h = elim (Bool-cases (code c == nl)) [
    | inl e ↦ rw (e, translate_line-returned buffer s h) (feed_returned "" text s h)
    | inr e ↦ rw e (feed_returned (append buffer (String.◌∷◌ c String.[])) text s h)
  ]

  rest_returned :
      (buffer : String) (s : Translator)
      → s.returned ≡ true
      → translate_rest py model_name buffer s ≡ (ok tt, s)
  unfolding translate_rest
  rest_returned buffer s h =
      if-false {b = not s.returned && str_eq (strip (strip buffer)) "data: [DONE]"} _
        (ground (arith, h))

  send_done-returned :
      (s t : Translator) → send_done py model_name s ≡ (ok tt, t) → t.returned ≡ true
  unfolding send_done stop
  send_done-returned s t h =
      let (_, _, h1) = bind_returns _ _ s t tt h in
      let (_, _, h2) = bind_returns _ _ _ t tt h1 in
      let (_, _, h3) = bind_returns _ _ _ t tt h2 in
      let (_, _, h4) = bind_returns _ _ _ t tt h3 in
      sym (ap (λ (p : Result (Unit {0}) × Translator). p.1.returned) h4)

  handle_done : handle_line py model_name "data: [DONE]" ≡ send_done py model_name
  unfolding handle_line strip drop_while drop_end is_space
  handle_done = refl

  concat-append : (xs ys : List String) → concat (xs ++ ys) ≡ append (concat xs) (concat ys)
  concat-append [] ys = sym (nil-append _)
  concat-append (x ∷ xs) ys = rw (concat-append xs ys, append_assoc)

  translate_done :
      (t u : Translator)
      → t.returned ≡ false
      → send_done py model_name t ≡ (ok tt, u)
      → translate_line py model_name "data: [DONE]" t ≡ (ok tt, u)
  unfolding translate_line
  translate_done t u open_state sent =
      if-false _ open_state ∙ ap (λ (m : Exec Translator (Unit {0})). m t) handle_done ∙ sent

  feed_done :
      (rest : String) (t u : Translator)
      → t.returned ≡ false
      → send_done py model_name t ≡ (ok tt, u)
      → feed (translate_line py model_name) "" (append "data: [DONE]\n" rest) t
        ≡ feed (translate_line py model_name) "" rest u
  feed_done rest t u open_state sent =
      feed-append (translate_line py model_name) "" "data: [DONE]\n" rest t
      ∙ bind_ok _ _ t u "" (
          feed-newline (translate_line py model_name) "data: [DONE]" t (ground arith)
          ∙ bind_ok _ _ t u tt (translate_done t u open_state sent))

  -- After the lines of `chunks` the event that ends a stream makes the translation yield its last line and
  -- end, if that raises nothing: whatever follows the event, in however many chunks, is not read.
  pub vllm_stream_done :
      (chunks rest : List String) (s t u : Translator)
      → read_all (read_chunk (translate_line py model_name)) "" chunks s ≡ (ok "", t)
      → t.returned ≡ false
      → send_done py model_name t ≡ (ok tt, u)
      → vllm_stream_to_ollama_stream py model_name (chunks ++ "data: [DONE]\n" ∷ rest) s
        ≡ (ok tt, u)
  vllm_stream_done chunks rest s t u h open_state sent =
      let returned = send_done-returned t u sent in
      let (kept, last) = feed_returned "" (concat rest) u returned in
      vllm_stream-feed (chunks ++ "data: [DONE]\n" ∷ rest) s
      ∙ bind_ok _ _ s u kept (
          ap (λ text. feed (translate_line py model_name) "" text s) (concat-append chunks _)
          ∙ feed-append (translate_line py model_name) "" (concat chunks) _ s
          ∙ bind_ok _ _ s t ""
              (sym (read_all-feed (translate_line py model_name) "" chunks s tt) ∙ h)
          ∙ feed_done (concat rest) t u open_state sent
          ∙ last)
      ∙ rest_returned kept u returned
