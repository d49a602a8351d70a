-- ===== src/Servers/Entries/Plain.antt =====
-- What a fetch puts into the table: few enough models, whose names are short and plain.
use Prim.Native.Char.{Char, code}
use ollama_proxy_server.Prelude.{
  ℕ, zero, suc, ◌≤◌, ◌≡◌, refl, sym, ◌∙◌, ap, subst, inl, inr, Bool, true, false, ◌||◌, ◌==◌, any,
  Option, some, List, [], ◌∷◌, String, Result, ok, ok-injective, length, length-take-le, take,
  take_chars, size, All, All-append, Bool-cases, arith, is_nil, if◌then◌else◌,
}
use ollama_proxy_server.Raises.{>>=-eq-ok}
use ollama_proxy_server.Json.{Json, str, obj, Fields, find}
use ollama_proxy_server.Json.Dynamic.{each, get_or, iterate}
use ollama_proxy_server.Vllm.{Python}
use ollama_proxy_server.Servers.Entries.{
  keep_chars, clean, vllm_name_codes, ollama_name_codes, flatten, vllm_entry, one, named_vllm,
  vllm_model_entry, size_of, ollama_entry, named_ollama, ollama_model_entry, read_models,
}

-- Each character of the text passes the test.
abbrev pub OnlyChars : (Char → Bool) → String → Type 0
OnlyChars p String.[] = Unit
OnlyChars p (String.◌∷◌ c s) = (p c ≡ true) × OnlyChars p s

OnlyChars-keep_chars : (p : Char → Bool) (s : String) → OnlyChars p (keep_chars p s)
unfolding keep_chars
OnlyChars-keep_chars p String.[] = tt
OnlyChars-keep_chars p (String.◌∷◌ c s) = go (p c) refl (OnlyChars-keep_chars p s)
  where
    go :
        (b : Bool)
        → p c ≡ b
        → OnlyChars p (keep_chars p s)
        → OnlyChars p (if b then String.◌∷◌ c (keep_chars p s) else keep_chars p s)
    go true e h = (e, h)
    go false e h = h

OnlyChars-take_chars :
    (p : Char → Bool) (n : ℕ) (s : String) → OnlyChars p s → OnlyChars p (take_chars n s)
unfolding take_chars
OnlyChars-take_chars p zero s h = tt
OnlyChars-take_chars p (suc n) String.[] h = tt
OnlyChars-take_chars p (suc n) (String.◌∷◌ c s) h = (h.0, OnlyChars-take_chars p n s h.1)

size-take_chars : (n : ℕ) (s : String) → size (take_chars n s) ≤ n
unfolding take_chars size
size-take_chars zero s = omega arith
size-take_chars (suc n) String.[] = omega arith
size-take_chars (suc n) (String.◌∷◌ c s) = omega (arith, size-take_chars n s)

-- The characters `.`, `-`, `:` and `/` for vLLM, or `.`, `-`, `:` and `@` for Ollama
abbrev pub plain_vllm : List ℕ
plain_vllm = b'.' ∷ b'-' ∷ b':' ∷ b'/' ∷ []

abbrev pub plain_ollama : List ℕ
plain_ollama = b'.' ∷ b'-' ∷ b':' ∷ b'@' ∷ []

-- The character is one that `\w` matches, or one of those listed.
abbrev pub is_plain : Python → List ℕ → Char → Bool
is_plain py codes c = py.is_word c || any (λ n. code c == n) codes

-- The model is an object whose name is a text of at most 256 characters, all of them plain.
abbrev pub IsPlain : Python → List ℕ → Json → Type 0
IsPlain py codes (obj model) =
    (name : String) × (find "name" model ≡ some (str name))
    × ((size name ≤ 256) × OnlyChars (is_plain py codes) name)
IsPlain py codes other = ⊥

module _ {A B : Type 0} (P : B → Type 0) where
  All-each :
      (f : A → Result (List B))
      → ((x : A) (ys : List B) → f x ≡ ok ys → All P ys)
      → (xs : List A) (lists : List (List B)) → each f xs ≡ ok lists
      → All P (flatten lists)
  unfolding each flatten
  All-each f h [] lists e = subst (λ l. All P (flatten l)) (ok-injective e) tt
  All-each f h (x ∷ xs) lists e =
      let (ys, e1, e2) = >>=-eq-ok (f x) _ e in
      let (rest, e3, e4) = >>=-eq-ok (each f xs) _ e2 in
      subst (λ l. All P (flatten l)) (ok-injective e4)
        (All-append P ys (flatten rest) (h x ys e1) (All-each f h xs rest e3))

module _ {B : Type 0} (P : B → Type 0) where
  All-take : (n : ℕ) (xs : List B) → All P xs → All P (take n xs)
  All-take zero xs h = tt
  All-take (suc n) [] h = tt
  All-take (suc n) (x ∷ xs) h = (h.0, All-take n xs h.1)

clean-IsPlain :
    (py : Python) (codes : List ℕ) (id : String)
    → (size (clean py codes 256 id) ≤ 256) × OnlyChars (is_plain py codes) (clean py codes 256 id)
clean-IsPlain py codes id = (
  size-take_chars 256 _,
  OnlyChars-take_chars (is_plain py codes) 256 _ (OnlyChars-keep_chars (is_plain py codes) id),
)

module _ (py : Python) where
  one-IsPlain :
      (codes : List ℕ) (name : String) (r : Result Json) (entries : List Json)
      → ((entry : Json) → r ≡ ok entry → IsPlain py codes entry)
      → (if is_nil name then ok [] else one py r) ≡ ok entries
      → All (IsPlain py codes) entries
  unfolding one
  one-IsPlain codes name r entries h e = elim (Bool-cases (is_nil name)) [
    | inl empty ↦
        subst (All (IsPlain py codes))
          (ok-injective (ap (λ b. if b then ok [] else one py r) (sym empty) ∙ e)) tt
    | inr full ↦
        let e' : one py r ≡ ok entries = ap (λ b. if b then ok [] else one py r) (sym full) ∙ e in
        let (entry, made, q) = >>=-eq-ok r _ e' in
        subst (All (IsPlain py codes)) (ok-injective q) (h entry made, tt)
  ]

  vllm_entry-IsPlain :
      (id : String) (model : Fields) (entry : Json)
      → vllm_entry py (clean py vllm_name_codes 256 id) model ≡ ok entry
      → IsPlain py plain_vllm entry
  unfolding vllm_entry find
  vllm_entry-IsPlain id model entry h =
      let (stamp, _, q) = >>=-eq-ok (py.fromtimestamp _) _ h in
      subst (IsPlain py plain_vllm) (ok-injective q)
        (clean py vllm_name_codes 256 id, refl, clean-IsPlain py plain_vllm id)

  vllm-IsPlain :
      (model : Json) (entries : List Json)
      → vllm_model_entry py model ≡ ok entries
      → All (IsPlain py plain_vllm) entries
  unfolding vllm_model_entry named_vllm
  vllm-IsPlain (obj model) entries h = go (find "id" model) h
    where
      go :
          (id : Option Json)
          → named_vllm py id model ≡ ok entries
          → All (IsPlain py plain_vllm) entries
      go (some (str id)) e = one-IsPlain plain_vllm id _ entries (vllm_entry-IsPlain id model) e
      go other e = subst (All (IsPlain py plain_vllm)) (ok-injective e) tt
  vllm-IsPlain other entries h = subst (All (IsPlain py plain_vllm)) (ok-injective h) tt

  ollama_entry-IsPlain :
      (id : String) (model : Fields) (entry : Json)
      → ollama_entry py (clean py ollama_name_codes 256 id) model ≡ ok entry
      → IsPlain py plain_ollama entry
  unfolding ollama_entry find
  ollama_entry-IsPlain id model entry h =
      let (size, _, q) = >>=-eq-ok (size_of py (py.int_of _)) _ h in
      subst (IsPlain py plain_ollama) (ok-injective q)
        (clean py ollama_name_codes 256 id, refl, clean-IsPlain py plain_ollama id)

  ollama-IsPlain :
      (model : Json) (entries : List Json)
      → ollama_model_entry py model ≡ ok entries
      → All (IsPlain py plain_ollama) entries
  unfolding ollama_model_entry named_ollama
  ollama-IsPlain (obj model) entries h = go (find "name" model) h
    where
      go :
          (name : Option Json)
          → named_ollama py name model ≡ ok entries
          → All (IsPlain py plain_ollama) entries
      go (some (str name)) e =
          one-IsPlain plain_ollama name _ entries (ollama_entry-IsPlain name model) e
      go other e = subst (All (IsPlain py plain_ollama)) (ok-injective e) tt
  ollama-IsPlain other entries h = subst (All (IsPlain py plain_ollama)) (ok-injective h) tt

  -- The models that a fetch reads from an answer, vLLM's or Ollama's, are at most 10000 objects, each
  -- with a name of at most 256 characters, each of which is one that `\w` matches, or `.`, `-`, `:` or,
  -- for vLLM, `/` and, for Ollama, `@`.
  pub read_models-IsPlain :
      (is_vllm : Bool) (value : Json) (models : List Json)
      → read_models py is_vllm value ≡ ok models
      → (length models ≤ 10000)
        × All (IsPlain py (if is_vllm then plain_vllm else plain_ollama)) models
  unfolding read_models
  read_models-IsPlain is_vllm value models h =
      let (_, _, h1) = >>=-eq-ok (get_or (if is_vllm then "data" else "models") _ value) _ h in
      let (items, _, h2) = >>=-eq-ok (iterate _) _ h1 in
      let (lists, made, h3) =
        >>=-eq-ok (each (if is_vllm then vllm_model_entry py else ollama_model_entry py) items) _
          h2 in
      subst
        (λ found.
          (length found ≤ 10000)
          × All (IsPlain py (if is_vllm then plain_vllm else plain_ollama)) found)
        (ok-injective h3)
        (
          length-take-le 10000 (flatten lists),
          All-take (IsPlain py (if is_vllm then plain_vllm else plain_ollama)) 10000 (flatten lists)
              (entries is_vllm items lists made),
        )
    where
      entries :
          (b : Bool) (items : List Json) (lists : List (List Json))
          → each (if b then vllm_model_entry py else ollama_model_entry py) items ≡ ok lists
          → All (IsPlain py (if b then plain_vllm else plain_ollama)) (flatten lists)
      entries true items lists e =
          All-each (IsPlain py plain_vllm) (vllm_model_entry py) vllm-IsPlain items lists e
      entries false items lists e =
          All-each (IsPlain py plain_ollama) (ollama_model_entry py) ollama-IsPlain items lists e
