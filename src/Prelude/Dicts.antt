-- ===== src/Prelude/Dicts.antt =====
-- Python's `dict` with text keys, in insertion order: `d[k] = v` keeps the place of an old key.
use Prim.Native.String.{String}
use mathlib.Core.Path.{◌≡◌, refl}
use mathlib.Core.Option.{Option, none, some}
use mathlib.Core.List.{List, [], ◌∷◌}
use native.Mathlib.Omega.{arith}
use text.Mathlib.Text.{◌==◌}
use text.Mathlib.TextEquality.{eq_iff}
use ollama_proxy_server.Prelude.Tests.{if◌then◌else◌}

abbrev pub Dict {ℓ} : Type ℓ → Type ℓ
Dict V = List (String × V)

module _ {ℓ} {V : Type ℓ} where
  unfoldable pub lookup : String → Dict V → Option V
  lookup k [] = none
  lookup k ((j, v) ∷ m) = if j == k then some v else lookup k m

  unfoldable pub insert : String → V → Dict V → Dict V
  insert k v [] = (k, v) ∷ []
  insert k v ((j, w) ∷ m) = if j == k then (j, v) ∷ m else (j, w) ∷ insert k v m

  unfoldable pub remove : String → Dict V → Dict V
  remove k [] = []
  remove k ((j, w) ∷ m) = let rest = remove k m in if j == k then rest else (j, w) ∷ rest

  pub lookup-insert :
      (key other : String) (value : V) (rest : Dict V)
      → lookup other (insert key value rest)
        ≡ (if key == other then some value else lookup other rest)
  unfolding lookup insert
  lookup-insert key other value [] = refl
  lookup-insert key other value ((first, old) ∷ rest) = ground (
    arith,
    eq_iff key other,
    eq_iff first key,
    eq_iff first other,
    lookup-insert key other value rest,
  )

  pub lookup-remove :
      (key other : String) (rest : Dict V)
      → lookup other (remove key rest) ≡ (if key == other then none else lookup other rest)
  unfolding lookup remove
  lookup-remove key other [] = ground arith
  lookup-remove key other ((first, old) ∷ rest) =
      ground (
        arith,
        lookup-remove key other rest,
        eq_iff first key,
        eq_iff first other,
        eq_iff key other,
      )
