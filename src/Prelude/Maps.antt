-- ===== src/Prelude/Maps.antt =====
-- Go maps with numeric keys, as association lists without an order: a loop over a map goes
-- through the list, and the theorems hold for every list, so for every order.
use Prim.Native.Nat.{ℕ}
use mathlib.Core.Path.{◌≡◌, refl, ◌∙◌}
use mathlib.Core.List.{List, [], ◌∷◌}
use mathlib.Core.Option.{Option, none, some}
use native.Mathlib.Omega.{arith}
use ghostline.Prelude.Tests.{◌==◌, if◌then◌else◌, Bool-cases}
use mathlib.Core.Logic.{inl, inr}

module _ {ℓ} {Value : Type ℓ} where
  unfoldable pub lookup : ℕ → List (ℕ × Value) → Option Value
  lookup key ((other, value) ∷ rest) = if other == key then some value else lookup key rest
  lookup key [] = none

  -- `m[key] = value`
  unfoldable pub put : ℕ → Value → List (ℕ × Value) → List (ℕ × Value)
  put key value ((other, old) ∷ rest) =
      if other == key then (key, value) ∷ rest else (other, old) ∷ put key value rest
  put key value [] = (key, value) ∷ []

  pub lookup-put :
      (key asked : ℕ) (value : Value) (entries : List (ℕ × Value))
      → lookup asked (put key value entries)
        ≡ (if key == asked then some value else lookup asked entries)
  unfolding put lookup
  lookup-put key asked value ((other, old) ∷ rest) = ground (arith, lookup-put key asked value rest)
  lookup-put key asked value [] = refl

module _ {V : Type 0} where
  -- Every key stands once, as in a Go map.
  abbrev pub IsDistinct : List (ℕ × V) → Type 0
  IsDistinct [] = Unit {0}
  IsDistinct ((k, v) ∷ m) = (lookup k m ≡ none) × IsDistinct m

  pub IsDistinct-put : (k : ℕ) (v : V) (m : List (ℕ × V)) → IsDistinct m → IsDistinct (put k v m)
  unfolding put lookup
  IsDistinct-put k v [] d = (refl, tt)
  IsDistinct-put k v ((j, w) ∷ m) d = elim (Bool-cases (j == k)) [
    | inl e ↦ ground arith
    | inr n ↦ rw n (lookup-put k j v m ∙ ground arith, IsDistinct-put k v m d.1)
  ]

-- A file system's contents by file: writing one leaves the others.
abbrev pub update {ℓ} : {V : Type ℓ} → (ℕ → V) → ℕ → V → ℕ → V
update f k v j = if k == j then v else f j
