-- ===== src/Raises.antt =====
-- `do` blocks over code that may raise and changes no state.
use ollama_proxy_server.Prelude.{◌≡◌, refl, Error, Result, ok, err}

infixl 5 ◌>>=◌ ◌>>◌
abbrev pub ◌>>=◌ {ℓ κ} : {A : Type ℓ} {B : Type κ} → Result A → (A → Result B) → Result B
ok a >>= f = f a
err e >>= f = err e

abbrev pub ◌>>◌ {ℓ κ} : {A : Type ℓ} {B : Type κ} → Result A → Result B → Result B
m >> k = m >>= λ _. k

pub >>=-eq-ok {ℓ κ} :
    {A : Type ℓ} {B : Type κ} (first : Result A) (then_do : A → Result B) {out : B}
    → (first >>= then_do) ≡ ok out
    → (value : A) × (first ≡ ok value) × (then_do value ≡ ok out)
>>=-eq-ok (ok value) then_do returns = (value, refl, returns)
>>=-eq-ok (err error) then_do returns = cc

pub raises_after {ℓ κ} :
    {A : Type ℓ} {B : Type κ} (m : Result A) (f : A → Result B)
    → ((a : A) → (e : Error) × (f a ≡ err e))
    → (e : Error) × ((m >>= f) ≡ err e)
raises_after (ok a) f h = h a
raises_after (err e) f h = (e, refl)
