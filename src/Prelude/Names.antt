-- ===== src/Prelude/Names.antt =====
-- Go maps whose keys are strings, as association lists without an order.
use mathlib.Core.Path.{◌≡◌, refl}
use mathlib.Core.List.{List, [], ◌∷◌}
use mathlib.Core.Option.{Option, none, some}
use native.Mathlib.Omega.{arith}
use ghostline.Prelude.Lists.{Bytes, bytes_eq, bytes_eq_iff}
use ghostline.Prelude.Tests.{if◌then◌else◌}

module _ {ℓ} {Value : Type ℓ} where
  unfoldable pub find : Bytes → List (Bytes × Value) → Option Value
  find name ((other, value) ∷ rest) = if bytes_eq other name then some value else find name rest
  find name [] = none

  -- `m[name] = value`
  unfoldable pub store : Bytes → Value → List (Bytes × Value) → List (Bytes × Value)
  store name value ((other, old) ∷ rest) =
      if bytes_eq other name then (name, value) ∷ rest else (other, old) ∷ store name value rest
  store name value [] = (name, value) ∷ []

  -- `delete(m, name)`
  unfoldable pub discard : Bytes → List (Bytes × Value) → List (Bytes × Value)
  discard name ((other, value) ∷ rest) =
      if bytes_eq other name then discard name rest else (other, value) ∷ discard name rest
  discard name [] = []

  pub find-store :
      (name asked : Bytes) (value : Value) (entries : List (Bytes × Value))
      → find asked (store name value entries)
        ≡ (if bytes_eq name asked then some value else find asked entries)
  unfolding store find
  find-store name asked value ((other, old) ∷ rest) = ground (
    arith,
    find-store name asked value rest,
    bytes_eq_iff name asked,
    bytes_eq_iff other name,
    bytes_eq_iff other asked,
  )
  find-store name asked value [] = refl

  pub find-discard :
      (name asked : Bytes) (entries : List (Bytes × Value))
      → find asked (discard name entries)
        ≡ (if bytes_eq name asked then none else find asked entries)
  unfolding discard find
  find-discard name asked ((other, old) ∷ rest) = ground (
    arith,
    find-discard name asked rest,
    bytes_eq_iff name asked,
    bytes_eq_iff other name,
    bytes_eq_iff other asked,
  )
  find-discard name asked [] = ground arith
