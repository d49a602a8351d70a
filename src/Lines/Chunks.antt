-- ===== src/Lines/Chunks.antt =====
-- A reader that buffers lines is a machine over characters: where a text is cut into chunks does not
-- change which lines are processed, in which order, what they leave behind, or what stays buffered.
use Prim.Native.Char.{code}
use text.Mathlib.TextLemmas.{append-nil, nil-append, cons-append}
use ollama_proxy_server.Prelude.{
  Error, ◌≡◌, refl, subst, ok-injective, ◌∙◌, sym, ap, inl, inr, List, String, Result, ok, err,
  Exec, continue, pure, split, split_from, append, ◌==◌, if◌then◌else◌, Bool-cases, arith,
}
use ollama_proxy_server.Exec.{◌>>=◌, ◌>>◌, bind_assoc, bind_congr, bind_congr_at, bind_same}
use ollama_proxy_server.Lines.{last_line, init_lines, each_line, read_chunk}
use ollama_proxy_server.Lines.Split.{
  push-append, nl, OneLine, OneLine-push, split_newline, split_other, split_from-append,
  last_line-cons, init_lines-cons,
}

module _ {T : Type 0} (process : String → Exec T (Unit {0})) where
  -- The machine: a line feed ends the line that is kept, any other character joins it.
  unfoldable pub feed : String → String → Exec T String
  feed buffer String.[] = pure buffer
  feed buffer (String.◌∷◌ c s) =
      let closed = (process buffer >> feed "" s) in
      let longer = feed (append buffer (String.◌∷◌ c String.[])) s in
      if code c == nl then closed else longer

  pub feed-append :
      (buffer a b : String) (t : T)
      → feed buffer (append a b) t ≡ (feed buffer a >>= λ kept. feed kept b) t
  unfolding feed
  feed-append buffer String.[] b t = rw nil-append (unfold ◌>>=◌ in refl)
  feed-append buffer (String.◌∷◌ c a) b t = rw cons-append (elim (Bool-cases (code c == nl)) [
    | inl e ↦ rw e (
        bind_congr (process buffer) _ _ (λ _ s. feed-append "" a b s) t
        ∙ sym (bind_assoc (process buffer) (λ _. feed "" a) (λ kept. feed kept b) t))
    | inr e ↦ rw e (feed-append (append buffer (String.◌∷◌ c String.[])) a b t)
  ])

  -- A text with no line feed only joins the buffer.
  pub feed-line :
      (buffer line : String) (t : T)
      → OneLine line
      → feed buffer line t ≡ (ok (append buffer line), t)
  unfolding feed
  feed-line buffer String.[] t h = rw append-nil
  feed-line buffer (String.◌∷◌ c line) t h = elim (Bool-cases (code c == nl)) [
    | inl e ↦ absurd (h.0 (ground arith))
    | inr e ↦
        rw (e, ← push-append buffer line c)
          (feed-line (append buffer (String.◌∷◌ c String.[])) line t h.1)
  ]

  -- A complete line is processed, and nothing of it is kept.
  pub feed-newline :
      (line : String) (t : T)
      → OneLine line
      → feed "" (append line "\n") t ≡ (process line >>= λ _. pure "") t
  feed-newline line t h =
      feed-append "" line "\n" t ∙ (unfold ◌>>=◌ feed in rw (feed-line "" line t h, nil-append))

  -- A line that raises ends the reading at its line feed.
  pub feed_raises :
      (line : String) (e : Error) (t t' : T)
      → OneLine line
      → process line t ≡ (err e, t')
      → feed "" (append line "\n") t ≡ (err e, t')
  feed_raises line e t t' h raised =
      feed-append "" line "\n" t
      ∙ (unfold ◌>>=◌ feed in rw (feed-line "" line t h, nil-append, raised))

  abbrev pub whole : List String → Exec T String
  whole lines = do each_line process (init_lines lines); pure (last_line lines)

  pub each_line-cons :
      (line : String) (lines : List String) (k : Unit {0} → Exec T String) (t : T)
      → (each_line process (List.◌∷◌ line lines) >>= k) t
        ≡ (process line >>= λ _. each_line process lines >>= k) t
  unfolding each_line
  each_line-cons line lines k t = bind_assoc (process line) (λ _. each_line process lines) k t

  pub whole-cons :
      (x y : String) (ys : List String) (t : T)
      → whole (List.◌∷◌ x (List.◌∷◌ y ys)) t ≡ (process x >>= λ _. whole (List.◌∷◌ y ys)) t
  unfolding init_lines last_line
  whole-cons x y ys t = each_line-cons x _ _ t

  pub whole-feed : (part s : String) (t : T) → whole (split_from nl part s) t ≡ feed part s t
  unfolding feed
  whole-feed part String.[] t = unfold split_from init_lines last_line each_line ◌>>=◌ in refl
  whole-feed part (String.◌∷◌ c s) t = elim (Bool-cases (code c == nl)) [
    | inl e ↦
        rw (split_newline part c s e, last_line-cons, init_lines-cons, e)
          (each_line-cons part _ _ t ∙ bind_congr (process part) _ _ (λ _ t'. whole-feed "" s t') t)
    | inr e ↦ rw (split_other part c s e, e) (whole-feed (append part (String.◌∷◌ c String.[])) s t)
  ]

  pub feed-OneLine :
      (buffer s kept : String) (t : T)
      → OneLine buffer
      → (feed buffer s t).0 ≡ ok kept
      → OneLine kept
  unfolding feed ◌>>=◌
  feed-OneLine buffer String.[] kept t h e = subst OneLine (ok-injective e) h
  feed-OneLine buffer (String.◌∷◌ c s) kept t h e = elim (Bool-cases (code c == nl)) [
    | inl q ↦ after (process buffer t).0 (process buffer t).1 (feed-OneLine "" s kept) (rw q at e)
    | inr q ↦
        feed-OneLine (append buffer (String.◌∷◌ c String.[])) s kept t
          (OneLine-push buffer c h (ground arith)) (rw q at e)
  ]
    where
      after :
          (r : Result (Unit {0})) (t' : T)
          → ((t'' : T) → Unit {0} → (feed "" s t'').0 ≡ ok kept → OneLine kept)
          → (continue r (λ _. feed "" s) t').0 ≡ ok kept
          → OneLine kept
      after (ok u) t' ih e' = ih t' tt e'
      after (err x) t' ih e' = cc

  -- A chunk is read as the machine reads its characters, if the buffer holds no complete line.
  pub read_chunk-feed :
      (buffer text : String) (t : T)
      → OneLine buffer
      → read_chunk process buffer text t ≡ feed buffer text t
  unfolding read_chunk split
  read_chunk-feed buffer text t h =
      rw (split_from-append "" buffer text h, nil-append) (whole-feed buffer text t)

-- The chunks of a stream, one after the other.
module _ {T : Type 0} (read : String → String → Exec T String) where
  abbrev pub read_all : String → List String → Exec T String
  read_all buffer List.[] = pure buffer
  read_all buffer (List.◌∷◌ text texts) = read buffer text >>= λ kept. read_all kept texts

abbrev pub concat : List String → String
concat List.[] = ""
concat (List.◌∷◌ text texts) = append text (concat texts)

module _ {T : Type 0} (process : String → Exec T (Unit {0})) where
  pub read_all-feed :
      (buffer : String) (texts : List String) (t : T)
      → OneLine buffer
      → read_all (read_chunk process) buffer texts t ≡ feed process buffer (concat texts) t
  read_all-feed buffer List.[] t h = unfold feed in refl
  read_all-feed buffer (List.◌∷◌ text texts) t h =
      bind_congr_at (read_chunk process buffer text) _ (λ kept. feed process kept (concat texts)) t
        (λ kept e. read_all-feed kept texts _ (
          feed-OneLine process buffer text kept t h (
            ap (λ (p : Result String × T). p.0) (sym (read_chunk-feed process buffer text t h))
            ∙ e)))
      ∙ bind_same (read_chunk process buffer text) (feed process buffer text) _ t
          (read_chunk-feed process buffer text t h)
      ∙ sym (feed-append process buffer text (concat texts) t)

  -- Reading a text in chunks, wherever it is cut, does what reading it in one chunk does.
  pub read_all-concat :
      (texts : List String) (t : T)
      → read_all (read_chunk process) "" texts t ≡ read_chunk process "" (concat texts) t
  read_all-concat texts t =
      read_all-feed "" texts t tt ∙ sym (read_chunk-feed process "" (concat texts) t tt)
