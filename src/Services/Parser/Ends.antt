-- ===== src/Services/Parser/Ends.antt =====
-- The inner loop of the parser ends, since each round shortens the buffer, and the parser reads the
-- lines of the whole stream, however it is cut.
use Prim.Native.Char.{Char, code}
use text.Mathlib.TextLemmas.{nil-append, cons-append}
use ollama_proxy_server.Prelude.{
  ℕ, zero, suc, ◌≤◌, ◌<◌, ◌≡◌, refl, ◌∙◌, sym, ap, Bool, true, false, Option, none, some, List, [],
  ◌∷◌, String, Result, ok, Exec, pure, append, size, ◌==◌, arith, if◌then◌else◌,
}
use ollama_proxy_server.Exec.{◌>>=◌, ◌>>◌, bind_congr, bind_congr_at, bind_same, bind_ok}
use ollama_proxy_server.Json.{Json}
use ollama_proxy_server.Lines.Split.{OneLine, nl}
use ollama_proxy_server.Lines.Chunks.{feed, feed-append, feed-line, feed-OneLine, concat}
use ollama_proxy_server.Services.Parser.{
  before_feed, split_once, parse_line, drain, parse_chunk, parse_stream,
}

-- What `split_once` says of a text
abbrev Cut : String → Option (String × String) → Type 0
Cut s none = OneLine s
Cut s (some (line, rest)) =
    OneLine line
    × ((size rest < size s)
        × ((c : Char) × (((code c == nl) ≡ true) × (s ≡ append line (String.◌∷◌ c rest)))))

Cut-before_feed :
    (c : Char) (s : String) (cut : Option (String × String))
    → (code c == nl) ≡ false
    → Cut s cut
    → Cut (String.◌∷◌ c s) (before_feed c cut)
unfolding before_feed size
Cut-before_feed c s none other h = (ground (arith, other), h)
Cut-before_feed c s (some (line, rest)) other (one, (less, (d, (feeds, e)))) =
    ((ground (arith, other), one), (omega (arith, less), (d, (feeds, rw (e, cons-append) refl))))

Cut-split_once : (s : String) → Cut s (split_once s)
unfolding split_once size
Cut-split_once String.[] = tt
Cut-split_once (String.◌∷◌ c s) = go (code c == nl) refl (Cut-split_once s)
  where
    go :
        (b : Bool)
        → (code c == nl) ≡ b
        → Cut s (split_once s)
        → Cut (String.◌∷◌ c s) (if b then some ("", s) else before_feed c (split_once s))
    go true e h = (tt, (omega arith, (c, (e, sym (nil-append _)))))
    go false e h = Cut-before_feed c s (split_once s) e h

module _ (loads : String → Result Json) where
  feed_cut :
      (line rest : String) (c : Char) (yielded : List Json)
      → OneLine line
      → (code c == nl) ≡ true
      → feed (parse_line loads) "" (append line (String.◌∷◌ c rest)) yielded
        ≡ (parse_line loads line >>= λ _. feed (parse_line loads) "" rest) yielded
  feed_cut line rest c yielded one feeds =
      feed-append (parse_line loads) "" line (String.◌∷◌ c rest) yielded
      ∙ bind_ok _ _ yielded yielded line (
          feed-line (parse_line loads) "" line yielded one
          ∙ ap (λ l. (ok l, yielded)) (nil-append line))
      ∙ (unfold feed in rw feeds refl)

  drain-feed :
      (fuel : ℕ) (buffer : String) (yielded : List Json)
      → size buffer ≤ fuel
      → drain loads fuel buffer yielded ≡ feed (parse_line loads) "" buffer yielded
  unfolding drain
  drain-feed zero String.[] yielded h = unfold feed in refl
  drain-feed zero (String.◌∷◌ c s) yielded h = absurd (unfold size in omega (arith, h))
  drain-feed (suc fuel) buffer yielded h =
      go (split_once buffer) (Cut-split_once buffer) (λ rest s. drain-feed fuel rest s)
    where
      go :
          (cut : Option (String × String))
          → Cut buffer cut
          → ((rest : String) (s : List Json)
              → size rest ≤ fuel
              → drain loads fuel rest s ≡ feed (parse_line loads) "" rest s)
          → (elim cut as (λ _. Exec (List Json) String) [
            | none ↦ pure buffer
            | some c ↦ parse_line loads c.0 >> drain loads fuel c.1
          ])
              yielded
            ≡ feed (parse_line loads) "" buffer yielded
      go none one ih =
          ap (λ b. (ok b, yielded)) (sym (nil-append buffer))
          ∙ sym (feed-line (parse_line loads) "" buffer yielded one)
      go (some (line, rest)) (one, (less, (c, (feeds, e)))) ih =
          bind_congr (parse_line loads line) _ _ (λ _ s. ih rest s (omega (arith, less, h))) yielded
          ∙ sym (feed_cut line rest c yielded one feeds)
          ∙ ap (λ b. feed (parse_line loads) "" b yielded) (sym e)

  -- With as much fuel as the buffer has characters the loop ends: more fuel changes nothing, and where
  -- no line raises, what is kept has no line feed.
  drain_ends :
      (fuel : ℕ) (buffer : String) (yielded : List Json)
      → size buffer ≤ fuel
      → (drain loads fuel buffer yielded ≡ drain loads (size buffer) buffer yielded)
        × ((kept : String) → (drain loads fuel buffer yielded).0 ≡ ok kept → OneLine kept)
  drain_ends fuel buffer yielded h =
      let read = drain-feed fuel buffer yielded h in
      (
        read ∙ sym (drain-feed (size buffer) buffer yielded (omega arith)),
        λ kept e.
            feed-OneLine (parse_line loads) "" buffer kept yielded tt
              (ap (λ (p : Result String × List Json). p.0) (sym read) ∙ e),
      )

  parse_chunk-feed :
      (buffer chunk : String) (yielded : List Json)
      → OneLine buffer
      → parse_chunk loads buffer chunk yielded ≡ feed (parse_line loads) buffer chunk yielded
  unfolding parse_chunk
  parse_chunk-feed buffer chunk yielded one =
      drain-feed (size (append buffer chunk)) (append buffer chunk) yielded (omega arith)
      ∙ feed-append (parse_line loads) "" buffer chunk yielded
      ∙ bind_ok _ _ yielded yielded buffer (
          feed-line (parse_line loads) "" buffer yielded one
          ∙ ap (λ l. (ok l, yielded)) (nil-append buffer))

  -- The parser yields the same values, raises the same error and keeps the same rest as for the whole
  -- stream in one chunk, wherever the stream is cut.
  parse_stream-feed :
      (buffer : String) (chunks : List String) (yielded : List Json)
      → OneLine buffer
      → parse_stream loads buffer chunks yielded
        ≡ feed (parse_line loads) buffer (concat chunks) yielded
  parse_stream-feed buffer [] yielded one = unfold parse_stream feed in refl
  parse_stream-feed buffer (chunk ∷ chunks) yielded one =
      step
      ∙ bind_congr_at (parse_chunk loads buffer chunk) _
          (λ kept. feed (parse_line loads) kept (concat chunks)) yielded
          (λ kept e. parse_stream-feed kept chunks _ (
            feed-OneLine (parse_line loads) buffer chunk kept yielded one
              (ap (λ (p : Result String × List Json). p.0) (sym read) ∙ e)))
      ∙ bind_same (parse_chunk loads buffer chunk) (feed (parse_line loads) buffer chunk) _ yielded
          read
      ∙ sym (feed-append (parse_line loads) buffer chunk (concat chunks) yielded)
    where
      read : parse_chunk loads buffer chunk yielded ≡ feed (parse_line loads) buffer chunk yielded
      read = parse_chunk-feed buffer chunk yielded one

      step :
          parse_stream loads buffer (chunk ∷ chunks) yielded
          ≡ (parse_chunk loads buffer chunk >>= λ kept. parse_stream loads kept chunks) yielded
      step = unfold parse_stream in refl

  -- Where a stream of bytes is cut into chunks makes no difference: two divisions of the same bytes give
  -- the same values in the same order, the same error, if any, and the same incomplete line at the end.
  pub parse_stream_division :
      (chunks chunks' : List String) (yielded : List Json)
      → concat chunks ≡ concat chunks'
      → parse_stream loads "" chunks yielded ≡ parse_stream loads "" chunks' yielded
  parse_stream_division chunks chunks' yielded same =
      parse_stream-feed "" chunks yielded tt
      ∙ ap (λ text. feed (parse_line loads) "" text yielded) same
      ∙ sym (parse_stream-feed "" chunks' yielded tt)
