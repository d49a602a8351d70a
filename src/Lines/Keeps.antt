-- ===== src/Lines/Keeps.antt =====
-- What holds of a line reader because it holds of the function that processes a line: an invariant of
-- the state.
use ollama_proxy_server.Prelude.{
  ◌≡◌, if◌then◌else◌, Bool, true, false, not, ◌&&◌, List, [], ◌∷◌, String, Result, ok, err, Exec,
  continue, Bool-cases, inl, inr, split, append, is_nil, ends_with_newline,
}
use ollama_proxy_server.Exec.{◌>>=◌}
use ollama_proxy_server.Lines.{init_lines, each_line, read_chunk_guarded}

-- `m` keeps `P`, whether it returns or raises.
abbrev pub Keeps : {S A : Type 0} → (S → Type 0) → Exec S A → Type 0
Keeps {S} P m = (s : S) → P s → P (m s).1

-- `m` returns from every state.
abbrev pub Returns : {S A : Type 0} → Exec S A → Type 0
Returns {S} {A} m = (s : S) → (a : A) × ((m s).0 ≡ ok a)

module _ {S A : Type 0} where
  pub if-Keeps :
      (P : S → Type 0) (b : Bool) (m n : Exec S A)
      → Keeps P m
      → Keeps P n
      → Keeps P (if b then m else n)
  if-Keeps P true m n h k = h
  if-Keeps P false m n h k = k

  pub if-Returns :
      (b : Bool) (m n : Exec S A) → Returns m → Returns n → Returns (if b then m else n)
  if-Returns true m n h k = h
  if-Returns false m n h k = k

module _ {S A B : Type 0} where
  pub continue-Keeps :
      (P : S → Type 0) (r : Result A) (f : A → Exec S B)
      → ((a : A) → Keeps P (f a))
      → Keeps P (continue r f)
  continue-Keeps P (ok a) f h s p = h a s p
  continue-Keeps P (err e) f h s p = p

  pub bind-Keeps :
      (P : S → Type 0) (m : Exec S A) (f : A → Exec S B)
      → Keeps P m
      → ((a : A) → Keeps P (f a))
      → Keeps P (m >>= f)
  unfolding ◌>>=◌
  bind-Keeps P m f h k s p = continue-Keeps P (m s).0 f k (m s).1 (h s p)

module _ {T : Type 0} (process : String → Exec T (Unit {0})) where
  module _ (P : T → Type 0) (keeps : (line : String) → Keeps P (process line)) where
    each_line-Keeps : (lines : List String) → Keeps P (each_line process lines)
    unfolding each_line
    each_line-Keeps [] = λ s p. p
    each_line-Keeps (line ∷ lines) =
        bind-Keeps P (process line) (λ _. each_line process lines) (keeps line)
          (λ _. each_line-Keeps lines)

    pub read_chunk_guarded-Keeps :
        (buffer text : String) → Keeps P (read_chunk_guarded process buffer text)
    unfolding read_chunk_guarded
    read_chunk_guarded-Keeps buffer text s p =
        elim (Bool-cases (not (is_nil (append buffer text)) && not (ends_with_newline text))) [
          | inl e ↦ rw e (
              bind-Keeps P (each_line process (init_lines (split 10 (append buffer text)))) _
                (each_line-Keeps _) (λ _ s' p'. p') s p)
          | inr e ↦ rw e (
              bind-Keeps P (each_line process (split 10 (append buffer text))) _ (each_line-Keeps _)
                (λ _ s' p'. p') s p)
        ]
