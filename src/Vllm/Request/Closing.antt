-- ===== src/Vllm/Request/Closing.antt =====
-- `</think>` does not occur in a text where each occurrence has been replaced by `< /think>`.
use Prim.Native.Char.{Char, code}
use text.Mathlib.TextLemmas.{nil-append, cons-append}
use ollama_proxy_server.Prelude.{
  ℕ, zero, suc, ◌≡◌, ◌≢◌, refl, sym, ◌∙◌, ap, inl, inr, Bool, true, false, ◌&&◌, ◌||◌, String,
  append, replace_from, starts_with, contains, size, ◌-◌, ◌==◌, arith, Bool-cases,
}

abbrev pub closing : String
closing = "</think>"

abbrev pub broken : String
broken = "< /think>"

-- No character of the text is `<`.
abbrev NoOpening : String → Type 0
NoOpening String.[] = Unit
NoOpening (String.◌∷◌ c s) = (code c ≢ 60) × NoOpening s

abbrev out : String → String
out s = replace_from 0 closing broken s

module _ (old new : String) where
  abbrev step : Char → String → Bool → String
  step c s hit = elim hit [
    | true ↦ append new (replace_from (size old - 1) old new s)
    | false ↦ String.◌∷◌ c (replace_from 0 old new s)
  ]

  replace-hit :
      (c : Char) (s : String)
      → starts_with (String.◌∷◌ c s) old ≡ true
      → replace_from 0 old new (String.◌∷◌ c s) ≡ append new (replace_from (size old - 1) old new s)
  unfolding replace_from
  replace-hit c s e = ap (step c s) e

  replace-miss :
      (c : Char) (s : String)
      → starts_with (String.◌∷◌ c s) old ≡ false
      → replace_from 0 old new (String.◌∷◌ c s) ≡ String.◌∷◌ c (replace_from 0 old new s)
  unfolding replace_from
  replace-miss c s e = ap (step c s) e

starts_with-broken :
    (d : Char) (s p : String) → code d ≢ 60 → starts_with (append broken s) (String.◌∷◌ d p) ≡ false
unfolding starts_with
starts_with-broken d s p h = rw cons-append (ground arith)

starts_with-out :
    (s p : String) → NoOpening p → starts_with (out s) p ≡ true → starts_with s p ≡ true
unfolding replace_from
starts_with-out s String.[] h e = unfold starts_with in refl
starts_with-out String.[] (String.◌∷◌ d p) h e = e
starts_with-out (String.◌∷◌ c s) (String.◌∷◌ d p) h e =
    elim (Bool-cases (starts_with (String.◌∷◌ c s) closing)) [
      | inl hit ↦ absurd (
          differ (
            sym e
            ∙ ap (λ x. starts_with x (String.◌∷◌ d p)) (replace-hit closing broken c s hit)
            ∙ starts_with-broken d _ p h.0))
      | inr miss ↦ ground (
        arith,
        starts_with-cons s p,
        starts_with-cons (out s) p,
        starts_with-out s p h.1,
        replace-miss closing broken c s miss,
        e,
      )
    ]
  where
    differ : true ≡ false → ⊥
    differ q = cc

    starts_with-cons :
        (x y : String)
        → starts_with (String.◌∷◌ c x) (String.◌∷◌ d y) ≡ ((code c == code d) && starts_with x y)
    starts_with-cons x y = unfold starts_with in refl

contains-no : (b s : String) → NoOpening b → contains closing (append b s) ≡ contains closing s
unfolding contains starts_with
contains-no String.[] s h = rw nil-append
contains-no (String.◌∷◌ c b) s h = rw cons-append (ground (arith, contains-no b s h.1))

contains-hit : (s : String) → contains closing (append broken s) ≡ contains closing s
unfolding contains starts_with
contains-hit s =
    rw (cons-append _ " /think>" s, cons-append _ "/think>" s)
      (contains-no "/think>" s (ground arith))

contains-cons :
    (c : Char) (s : String)
    → contains closing (String.◌∷◌ c s)
      ≡ ((code c == 60) && starts_with s "/think>" || contains closing s)
unfolding contains starts_with
contains-cons c s = refl

starts_with-closing :
    (c : Char) (s : String)
    → starts_with (String.◌∷◌ c s) closing ≡ ((code c == 60) && starts_with s "/think>")
unfolding starts_with
starts_with-closing c s = refl

contains-miss :
    (c : Char) (s : String)
    → starts_with (String.◌∷◌ c s) closing ≡ false
    → contains closing (out s) ≡ false
    → contains closing (String.◌∷◌ c (out s)) ≡ false
contains-miss c s miss ih = elim (Bool-cases (starts_with (out s) "/think>")) [
  | inl e ↦ ground (
    arith,
    contains-cons c (out s),
    starts_with-closing c s,
    starts_with-out s "/think>" (ground arith) e,
    miss,
    ih,
  )
  | inr e ↦ ground (arith, contains-cons c (out s), e, ih)
]

contains-nil : (skip : ℕ) → contains closing (replace_from skip closing broken "") ≡ false
unfolding contains replace_from starts_with
contains-nil zero = refl
contains-nil (suc skip) = refl

replace-skip :
    (skip : ℕ) (c : Char) (s : String)
    → replace_from (suc skip) closing broken (String.◌∷◌ c s) ≡ replace_from skip closing broken s
unfolding replace_from
replace-skip skip c s = refl

pub contains-replace :
    (skip : ℕ) (s : String) → contains closing (replace_from skip closing broken s) ≡ false
contains-replace skip String.[] = contains-nil skip
contains-replace (suc skip) (String.◌∷◌ c s) = rw (replace-skip skip c s) (contains-replace skip s)
contains-replace zero (String.◌∷◌ c s) = elim (Bool-cases (starts_with (String.◌∷◌ c s) closing)) [
  | inl hit ↦
      rw (replace-hit closing broken c s hit, contains-hit) (contains-replace (size closing - 1) s)
  | inr miss ↦
      rw (replace-miss closing broken c s miss) (contains-miss c s miss (contains-replace zero s))
]
