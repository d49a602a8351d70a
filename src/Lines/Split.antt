-- ===== src/Lines/Split.antt =====
-- How `split` cuts a text at its line feeds, and what the last piece is.
use Prim.Native.Char.{Char, code}
use text.Mathlib.TextLemmas.{nil-append, cons-append, append_assoc, append-nil}
use ollama_proxy_server.Prelude.{
  ℕ, ◌≡◌, refl, ◌∙◌, ap, ◌≢◌, inl, inr, true, false, List, String, split_from, append, is_nil,
  ends_with_newline, ◌==◌, Bool-cases, arith,
}
use ollama_proxy_server.Lines.{last_line, init_lines}

abbrev pub nl : ℕ
nl = 10

-- No character of the text is a line feed.
abbrev pub OneLine : String → Type 0
OneLine String.[] = Unit
OneLine (String.◌∷◌ c s) = (code c ≢ nl) × OneLine s

pub OneLine-push :
    (b : String) (c : Char) → OneLine b → code c ≢ nl → OneLine (append b (String.◌∷◌ c String.[]))
OneLine-push String.[] c h p = rw nil-append (p, tt)
OneLine-push (String.◌∷◌ d b) c h p = rw cons-append (h.0, OneLine-push b c h.1 p)

pub split_newline :
    (part : String) (c : Char) (s : String)
    → (code c == nl) ≡ true
    → split_from nl part (String.◌∷◌ c s) ≡ List.◌∷◌ part (split_from nl "" s)
unfolding split_from
split_newline part c s e = rw e

pub split_other :
    (part : String) (c : Char) (s : String)
    → (code c == nl) ≡ false
    → split_from nl part (String.◌∷◌ c s) ≡ split_from nl (append part (String.◌∷◌ c String.[])) s
unfolding split_from
split_other part c s e = rw e

pub push-append :
    (part b : String) (c : Char)
    → append (append part (String.◌∷◌ c String.[])) b ≡ append part (String.◌∷◌ c b)
push-append part b c =
    append_assoc part (String.◌∷◌ c String.[]) b
    ∙ ap (append part) (cons-append c String.[] b ∙ ap (String.◌∷◌ c) (nil-append b))

pub split_from-append :
    (part b t : String)
    → OneLine b
    → split_from nl part (append b t) ≡ split_from nl (append part b) t
split_from-append part String.[] t h = rw (nil-append, append-nil)
split_from-append part (String.◌∷◌ c b) t h = elim (Bool-cases (code c == nl)) [
  | inl e ↦ absurd (h.0 (ground arith))
  | inr e ↦
      rw (cons-append, split_other part c (append b t) e, ← push-append part b c)
        (split_from-append (append part (String.◌∷◌ c String.[])) b t h.1)
]

pub split_from-cons :
    (part s : String) → (x : String) × (xs : List String) × (split_from nl part s ≡ List.◌∷◌ x xs)
unfolding split_from
split_from-cons part String.[] = (part, List.[], refl)
split_from-cons part (String.◌∷◌ c s) = elim (Bool-cases (code c == nl)) [
  | inl e ↦ (part, split_from nl "" s, rw e)
  | inr e ↦ rw e (split_from-cons (append part (String.◌∷◌ c String.[])) s)
]

pub last_line-cons :
    (x part s : String)
    → last_line (List.◌∷◌ x (split_from nl part s)) ≡ last_line (split_from nl part s)
unfolding last_line
last_line-cons x part s = rw (split_from-cons part s).2

pub init_lines-cons :
    (x part s : String)
    → init_lines (List.◌∷◌ x (split_from nl part s))
      ≡ List.◌∷◌ x (init_lines (split_from nl part s))
unfolding init_lines
init_lines-cons x part s = rw (split_from-cons part s).2

pub last_line_newline :
    (part s : String) → ends_with_newline s ≡ true → last_line (split_from nl part s) ≡ ""
unfolding ends_with_newline
last_line_newline part String.[] h = cc
last_line_newline part (String.◌∷◌ c String.[]) h =
    rw (split_newline part c String.[] h) (unfold last_line split_from in refl)
last_line_newline part (String.◌∷◌ c (String.◌∷◌ d s)) h = elim (Bool-cases (code c == nl)) [
  | inl e ↦ rw (split_newline part c _ e, last_line-cons) (last_line_newline "" (String.◌∷◌ d s) h)
  | inr e ↦
      rw (split_other part c _ e)
        (last_line_newline (append part (String.◌∷◌ c String.[])) (String.◌∷◌ d s) h)
]

pub last_of_nil : (s : String) → is_nil s ≡ true → last_line (split_from nl "" s) ≡ ""
unfolding last_line split_from
last_of_nil String.[] e = refl
last_of_nil (String.◌∷◌ c s) e = cc

pub last_line-one : (x : String) → last_line (List.◌∷◌ x List.[]) ≡ "" → x ≡ ""
unfolding last_line
last_line-one x e = e

pub last_line-more :
    (x y : String) (ys : List String)
    → last_line (List.◌∷◌ x (List.◌∷◌ y ys)) ≡ ""
    → last_line (List.◌∷◌ y ys) ≡ ""
unfolding last_line
last_line-more x y ys e = e
