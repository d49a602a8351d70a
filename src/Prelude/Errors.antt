-- ===== src/Prelude/Errors.antt =====
-- What Python code raises, and code that may raise: a result, or a state and a result.
use Prim.Native.Nat.{ℕ}
use Prim.Native.String.{String}
use mathlib.Core.Path.{◌≡◌, ap}

-- `http status detail` is FastAPI's HTTPException, `http_status_error status text` is httpx's
-- HTTPStatusError with the response's text; the others are Python's and the libraries'
-- exceptions, with their message.
pub data Error : Type 0 where
  http : ℕ → String → Error
  http_status_error : ℕ → String → Error
  name_error value_error type_error attribute_error key_error index_error : String → Error
  json_decode_error unicode_error request_error os_error other_error : String → Error

pub data Result {ℓ} (A : Type ℓ) : Type ℓ where
  ok : A → Result A
  err : Error → Result A

abbrev pub bind {ℓ κ} : {A : Type ℓ} {B : Type κ} → Result A → (A → Result B) → Result B
bind (ok a) f = f a
bind (err e) f = err e

-- What was written before a raise stays written, so the state comes back beside the error too.
abbrev pub Exec {ℓ} : Type ℓ → Type ℓ → Type ℓ
Exec S A = S → Result A × S

abbrev pub continue {ℓ} : {S A B : Type ℓ} → Result A → (A → Exec S B) → Exec S B
continue (ok a) f s = f a s
continue (err e) f s = (err e, s)

module _ {ℓ} {S A : Type ℓ} where
  abbrev pub pure : A → Exec S A
  pure a s = (ok a, s)

  abbrev pub raise : Error → Exec S A
  raise e s = (err e, s)

  abbrev pub lift : Result A → Exec S A
  lift r s = (r, s)

from_ok {ℓ} : {A : Type ℓ} → A → Result A → A
from_ok a (ok b) = b
from_ok a (err e) = a

pub ok-injective {ℓ} : {A : Type ℓ} {a b : A} → ok a ≡ ok b → a ≡ b
unfolding from_ok
ok-injective {a = a} e = ap (from_ok a) e
