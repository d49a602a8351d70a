-- ===== src/Exec.antt =====
-- `do` blocks over code that may raise and changes a state, `Exec` of the prelude.
use ollama_proxy_server.Prelude.{◌≡◌, refl, ap, Error, Result, ok, err, Exec, continue}

err-ok {ℓ} : {A : Type ℓ} {e : Error} {a : A} → err e ≡ ok a → ⊥
err-ok h = cc

module _ {ℓ} {S A B : Type ℓ} where
  infixl 5 ◌>>=◌ ◌>>◌
  unfoldable pub ◌>>=◌ : Exec S A → (A → Exec S B) → Exec S B
  ◌>>=◌ m f s = let (r, s') = m s in continue r f s'

  abbrev pub ◌>>◌ : Exec S A → Exec S B → Exec S B
  m >> n = m >>= λ _. n

module _ {ℓ} {S A B C : Type ℓ} where
  bind-continue :
      (then_do : A → Exec S B) (last : B → Exec S C) (result : Result A) (state : S)
      → (continue result then_do >>= last) state ≡ continue result (λ a. then_do a >>= last) state
  unfolding ◌>>=◌
  bind-continue then_do last (ok a) state = refl
  bind-continue then_do last (err e) state = refl

  pub bind_assoc :
      (first : Exec S A) (then_do : A → Exec S B) (last : B → Exec S C) (state : S)
      → (first >>= then_do >>= last) state ≡ (first >>= λ a. then_do a >>= last) state
  unfolding ◌>>=◌
  bind_assoc first then_do last state =
      let (result, s') = first state in bind-continue then_do last result s'

module _ {ℓ} {S A B : Type ℓ} where
  continue_congr :
      (result : Result A) (then_do last : A → Exec S B)
      → ((a : A) (state : S) → then_do a state ≡ last a state)
      → (state : S) → continue result then_do state ≡ continue result last state
  continue_congr (ok a) then_do last h state = h a state
  continue_congr (err e) then_do last h state = refl

  pub bind_congr :
      (first : Exec S A) (then_do last : A → Exec S B)
      → ((a : A) (state : S) → then_do a state ≡ last a state)
      → (state : S) → (first >>= then_do) state ≡ (first >>= last) state
  unfolding ◌>>=◌
  bind_congr first then_do last h state =
      let (result, s') = first state in continue_congr result then_do last h s'

  -- The same, where the two may differ at values that the first part does not return.
  pub bind_congr_at :
      (first : Exec S A) (then_do last : A → Exec S B) (state : S)
      → ((a : A) → (first state).0 ≡ ok a → then_do a (first state).1 ≡ last a (first state).1)
      → (first >>= then_do) state ≡ (first >>= last) state
  unfolding ◌>>=◌
  bind_congr_at first then_do last state h = go (first state).0 (first state).1 h
    where
      go :
          (result : Result A) (s' : S)
          → ((a : A) → result ≡ ok a → then_do a s' ≡ last a s')
          → continue result then_do s' ≡ continue result last s'
      go (ok a) s' k = k a refl
      go (err e) s' k = refl

  pub bind_same :
      (first n : Exec S A) (then_do : A → Exec S B) (state : S)
      → first state ≡ n state
      → (first >>= then_do) state ≡ (n >>= then_do) state
  unfolding ◌>>=◌
  bind_same first n then_do state e = ap (λ (p : Result A × S). continue p.0 then_do p.1) e

  continue_returns :
      (result : Result A) (then_do : A → Exec S B) (state end : S) (b : B)
      → continue result then_do state ≡ (ok b, end)
      → (a : A) × (result ≡ ok a) × (then_do a state ≡ (ok b, end))
  continue_returns (ok a) then_do state end b h = (a, refl, h)
  continue_returns (err e) then_do state end b h = absurd (err-ok (ap (λ p. p.0) h))

  -- Code that returns has returned from its first part.
  pub bind_returns :
      (first : Exec S A) (then_do : A → Exec S B) (state end : S) (b : B)
      → (first >>= then_do) state ≡ (ok b, end)
      → (a : A) × ((first state).0 ≡ ok a) × (then_do a (first state).1 ≡ (ok b, end))
  unfolding ◌>>=◌
  bind_returns first then_do state end b h =
      let (result, s') = first state in continue_returns result then_do s' end b h

  -- The rest of the code behind a first part that returns.
  pub bind_ok :
      (first : Exec S A) (then_do : A → Exec S B) (state s' : S) (a : A)
      → first state ≡ (ok a, s')
      → (first >>= then_do) state ≡ then_do a s'
  unfolding ◌>>=◌
  bind_ok first then_do state s' a h = ap (λ (p : Result A × S). continue p.0 then_do p.1) h
