-- ===== src/Lines/Guarded.antt =====
-- The reader that keeps its last piece only behind a guard reads as the plain one.
use ollama_proxy_server.Prelude.{
  ◌≡◌, refl, ◌∙◌, sym, ap, inl, inr, List, String, Result, ok, Exec, pure, split, split_from,
  append, is_nil, ends_with_newline, Bool-cases,
}
use ollama_proxy_server.Exec.{◌>>=◌, bind_congr, bind_congr_at, bind_same}
use ollama_proxy_server.Lines.{last_line, init_lines, each_line, read_chunk, read_chunk_guarded}
use ollama_proxy_server.Lines.Split.{
  nl, OneLine, split_from-append, last_line_newline, last_of_nil, last_line-one, last_line-more,
}
use ollama_proxy_server.Lines.Chunks.{
  feed, feed-append, whole, each_line-cons, whole-cons, feed-OneLine, read_chunk-feed, read_all,
  concat,
}

-- The guarded reader, which also processes the empty text behind a last line feed.
module _ {T : Type 0} (process : String → Exec T (Unit {0}))
    (skips : (t : T) → process "" t ≡ (ok tt, t)) where
  skip_last :
      (lines : List String) (t : T)
      → last_line lines ≡ ""
      → ◌>>=◌ {B = String} (each_line process lines) (λ _. pure "") t ≡ whole process lines t
  skip_last List.[] t e = unfold each_line init_lines last_line ◌>>=◌ in refl
  skip_last (List.◌∷◌ x List.[]) t e =
      unfold each_line init_lines last_line ◌>>=◌ in rw (last_line-one x e, skips t)
  skip_last (List.◌∷◌ x (List.◌∷◌ y ys)) t e =
      each_line-cons process x (List.◌∷◌ y ys) _ t
      ∙ bind_congr (process x) _ _ (λ _ t'. skip_last (List.◌∷◌ y ys) t' (last_line-more x y ys e))
          t
      ∙ sym (whole-cons process x y ys t)

  pub guarded-eq-read_chunk :
      (buffer text : String) (t : T)
      → OneLine buffer
      → read_chunk_guarded process buffer text t ≡ read_chunk process buffer text t
  unfolding read_chunk_guarded read_chunk split
  guarded-eq-read_chunk buffer text t h = elim (Bool-cases (is_nil (append buffer text))) [
    | inl empty ↦
        rw empty (skip_last (split_from nl "" (append buffer text)) t (last_of_nil _ empty))
    | inr full ↦ rw full (elim (Bool-cases (ends_with_newline text)) [
      | inl ends ↦ rw ends (
          skip_last (split_from nl "" (append buffer text)) t (
            rw (split_from-append "" buffer text h)
              (last_line_newline (append "" buffer) text ends)))
      | inr open_end ↦ rw open_end refl
    ])
  ]

  -- The guarded reader also makes nothing of where the text is cut.
  pub read_all_guarded-feed :
      (buffer : String) (texts : List String) (t : T)
      → OneLine buffer
      → read_all (read_chunk_guarded process) buffer texts t ≡ feed process buffer (concat texts) t
  read_all_guarded-feed buffer List.[] t h = unfold feed in refl
  read_all_guarded-feed buffer (List.◌∷◌ text texts) t h =
      let same : read_chunk_guarded process buffer text t ≡ feed process buffer text t =
        guarded-eq-read_chunk buffer text t h ∙ read_chunk-feed process buffer text t h in
      bind_congr_at (read_chunk_guarded process buffer text) _
        (λ kept. feed process kept (concat texts)) t
        (λ kept e. read_all_guarded-feed kept texts _ (
          feed-OneLine process buffer text kept t h
            (ap (λ (p : Result String × T). p.0) (sym same) ∙ e)))
      ∙ bind_same (read_chunk_guarded process buffer text) (feed process buffer text) _ t same
      ∙ sym (feed-append process buffer text (concat texts) t)
