-- ===== src/Proxy/AutoModel/Choice.antt =====
-- Which model `_select_auto_model` takes.
use ollama_proxy_server.Prelude.{
  ◌≡◌, refl, sym, subst, ◌∙◌, ap, Bool, true, false, not, ◌&&◌, ◌||◌, some, List, [], ◌∷◌, any,
  filter, is_empty, All, In, inl, inr, arith, Bool-cases, if◌then◌else◌, if-true, if-false,
}
use ollama_proxy_server.Proxy.AutoModel.{
  ModelMetadata, Wanted, prefer_models, is_reasoning, candidate_models, first_model, best_model,
}

-- The model has what the request asks for; of reasoning the metadata say nothing.
unfoldable pub suits : Wanted → ModelMetadata → Bool
suits wanted m =
    (not wanted.has_images || m.supports_images)
    && (not wanted.contains_code || m.is_code_model)
    && (not wanted.fast_model || m.is_fast_model)

-- A model that is In a list, passes a test, and so the list of those that pass has it.
In-filter_of :
    {A : Type 0} (test : A → Bool) (a : A) (xs : List A)
    → In a xs
    → test a ≡ true
    → In a (filter test xs)
unfolding filter
In-filter_of test a [] h t = h
In-filter_of test a (x ∷ xs) (inl e) t = rw (ap test (sym e) ∙ t) (inl e)
In-filter_of test a (x ∷ xs) (inr h) t = elim (Bool-cases (test x)) [
  | inl e ↦ rw e (inr (In-filter_of test a xs h t))
  | inr e ↦ rw e (In-filter_of test a xs h t)
]

In-not_empty : {A : Type 0} (a : A) (xs : List A) → In a xs → is_empty xs ≡ false
In-not_empty a [] h = absurd h
In-not_empty a (x ∷ xs) h = refl

All-filter_both :
    {A : Type 0} (P : A → Type 0) (test : A → Bool) (xs : List A)
    → All P xs
    → All (λ a. P a × (test a ≡ true)) (filter test xs)
unfolding filter
All-filter_both P test [] h = tt
All-filter_both P test (x ∷ xs) h = elim (Bool-cases (test x)) [
  | inl e ↦ rw e ((h.0, e), All-filter_both P test xs h.1)
  | inr e ↦ rw e (All-filter_both P test xs h.1)
]

All-map :
    {A : Type 0} (P Q : A → Type 0) (xs : List A) → ((a : A) → P a → Q a) → All P xs → All Q xs
All-map P Q [] f h = tt
All-map P Q (x ∷ xs) f h = (f x h.0, All-map P Q xs f h.1)

All-In : {A : Type 0} (xs : List A) → All (λ a. In a xs) xs
All-In [] = tt
All-In (x ∷ xs) = (inl refl, All-map _ _ xs (λ a h. inr h) (All-In xs))

-- What a filter leaves, where some model that stays passes the test of the filter if it is used
module _ (m : ModelMetadata) (flag : Bool) (test : ModelMetadata → Bool)
    (passes : flag ≡ true → test m ≡ true) (P : ModelMetadata → Type 0) (xs : List ModelMetadata)
    (there : In m xs) (all : All P xs) where
  abbrev Passed : ModelMetadata → Type 0
  Passed a = P a × (flag ≡ true → test a ≡ true)

  abbrev Left : List ModelMetadata → Type 0
  Left ys = In m ys × All Passed ys

  unused : flag ≡ false → Left xs
  unused off = (there, All-map P Passed xs (λ a p. (p, λ on. absurd (on_off on off))) all)
    where
      on_off : flag ≡ true → flag ≡ false → ⊥
      on_off on off = cc

  used : flag ≡ true → Left (filter test xs)
  used on = (
    In-filter_of test m xs there (passes on),
    All-map _ Passed (filter test xs) (λ a p. (p.0, λ _. p.1)) (All-filter_both P test xs all),
  )

  filter-Left : Left (if flag then filter test xs else xs)
  filter-Left = elim (Bool-cases flag) [
    | inl on ↦ subst Left (sym (if-true xs on)) (used on)
    | inr off ↦ subst Left (sym (if-false (filter test xs) off)) (unused off)
  ]

  prefer_models-Left : Left (if flag then prefer_models test xs else xs)
  unfolding prefer_models
  prefer_models-Left = elim (Bool-cases flag) [
    | inl on ↦
        subst Left (sym (if-true xs on ∙ if-false xs (In-not_empty m (filter test xs) (used on).0)))
          (used on)
    | inr off ↦ subst Left (sym (if-false (prefer_models test xs) off)) (unused off)
  ]

none_reasons : (models : List ModelMetadata) → filter is_reasoning models ≡ []
unfolding filter is_reasoning any
none_reasons [] = refl
none_reasons (m ∷ models) = none_reasons models

-- The filter for reasoning, which no model passes, leaves the models as they are.
reasoning_keeps :
    (flag : Bool) (models : List ModelMetadata)
    → (if flag then prefer_models is_reasoning models else models) ≡ models
unfolding prefer_models
reasoning_keeps true models = rw (none_reasons models) refl
reasoning_keeps false models = refl

suits-parts :
    (wanted : Wanted) (m : ModelMetadata)
    → suits wanted m ≡ true
    → (wanted.has_images ≡ true → m.supports_images ≡ true)
      × (wanted.contains_code ≡ true → m.is_code_model ≡ true)
      × (wanted.fast_model ≡ true → m.is_fast_model ≡ true)
unfolding suits
suits-parts wanted m h = ground (arith, h)

suits-whole :
    (wanted : Wanted) (m : ModelMetadata)
    → (wanted.has_images ≡ true → m.supports_images ≡ true)
    → (wanted.contains_code ≡ true → m.is_code_model ≡ true)
    → (wanted.fast_model ≡ true → m.is_fast_model ≡ true)
    → suits wanted m ≡ true
unfolding suits
suits-whole wanted m i c f = ground (arith, i, c, f)

first-All :
    (P : ModelMetadata → Type 0) (available xs : List ModelMetadata) (m : ModelMetadata)
    → In m xs
    → All P xs
    → (best : ModelMetadata) × (first_model (if is_empty xs then available else xs) ≡ some best)
      × P best
unfolding first_model
first-All P available [] m h all = absurd h
first-All P available (x ∷ xs) m h all = (x, refl, all.0)

-- If some available model has all that a request asks for (images, code, speed), then a model is
-- chosen, it is available, and it has all of that as well, whether or not the prompt asks for
-- reasoning.
pub best_model-suits :
    (wanted : Wanted) (available : List ModelMetadata) (m : ModelMetadata)
    → In m available
    → suits wanted m ≡ true
    → (best : ModelMetadata) × (best_model wanted available ≡ some best)
      × In best available
      × (suits wanted best ≡ true)
unfolding best_model candidate_models
best_model-suits wanted available m h s =
    let (i, c, f) = suits-parts wanted m s in
    let (there1, all1) =
      filter-Left m wanted.has_images (λ a. a.supports_images) i _ available h (All-In available) in
    let (there2, all2) =
      prefer_models-Left m wanted.contains_code (λ a. a.is_code_model) c _ _ there1 all1 in
    let (there3, all3) =
      prefer_models-Left m wanted.fast_model (λ a. a.is_fast_model) f _ _ there2 all2 in
    let (best, e, p) = first-All _ available _ m there3 all3 in
    (
      best,
      ap
            (λ (models : List ModelMetadata).
              first_model (if is_empty models then available else models))
            (reasoning_keeps wanted.requires_reasoning _)
          ∙ e,
      p.0.0.0,
      suits-whole wanted best p.0.0.1 p.0.1 p.1,
    )
