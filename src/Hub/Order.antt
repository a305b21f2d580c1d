-- ===== src/Hub/Order.antt =====
-- hub.go: the order in which a hub lists its sessions. A session is known by its identity; what
-- its state holds of it, its name and when it was made, are functions of the identity.
use mathlib.Core.List.{Perm, Permᴰ, Pairwise, mem-cons_self}
use mathlib.Core.Path.{ap₂}
use mathlib.Core.Logic.{∥∥₁_elim}
use mathlib.Core.HLevel.{¬_prop}
use mathlib.Core.List.Perm
use mathlib.Core.List.Permᴰ
use ghostline.Prelude.{
  ◌<◌, ◌⊎◌, ℕ, ◌≡◌, ◌≢◌, inl, inr, refl, sym, ◌∙◌, Bool, true, false, not, ◌||◌, ◌==◌, ltb, List,
  [], ◌∷◌, Bytes, bytes_eq, bytes_eq_iff, if◌then◌else◌, arith, Bool-cases,
}

-- `<` on strings
unfoldable pub bytes_less : Bytes → Bytes → Bool
bytes_less [] [] = false
bytes_less [] (y ∷ ys) = true
bytes_less (x ∷ xs) [] = false
bytes_less (x ∷ xs) (y ∷ ys) = let rest = bytes_less xs ys in if x == y then rest else ltb x y

bytes_less_total : (xs ys : Bytes) → bytes_less xs ys ≡ not (bytes_eq xs ys || bytes_less ys xs)
unfolding bytes_less
bytes_less_total [] [] = refl
bytes_less_total [] (y ∷ ys) = refl
bytes_less_total (x ∷ xs) [] = refl
bytes_less_total (x ∷ xs) (y ∷ ys) = ground (arith, bytes_less_total xs ys)

bytes_less_trans :
    (xs ys zs : Bytes) → bytes_less xs ys ≡ true → bytes_less ys zs ≡ true → bytes_less xs zs ≡ true
unfolding bytes_less
bytes_less_trans [] ys [] p q = ground arith
bytes_less_trans [] ys (z ∷ zs) p q = refl
bytes_less_trans (x ∷ xs) [] zs p q = absurd (cc)
bytes_less_trans (x ∷ xs) (y ∷ ys) [] p q = absurd (cc)
bytes_less_trans (x ∷ xs) (y ∷ ys) (z ∷ zs) p q = ground (arith, bytes_less_trans xs ys zs)

-- No two of the sessions have the same name, as in the hub's map.
abbrev pub IsNamedApart : (ℕ → Bytes) → List ℕ → Type 0
IsNamedApart name_of = Pairwise (λ (x : ℕ) (y : ℕ). name_of x ≢ name_of y)

module _ (created : ℕ → ℕ) (name_of : ℕ → Bytes) where
  -- The comparison of sessionStates.
  unfoldable pub before : ℕ → ℕ → Bool
  before left right =
      if created left == created right
      then bytes_less (name_of left) (name_of right)
      else ltb (created left) (created right)

  unfoldable pub insert : ℕ → List ℕ → List ℕ
  insert x [] = x ∷ []
  insert x (y ∷ ys) = let rest = insert x ys in if before x y then x ∷ y ∷ ys else y ∷ rest

  -- sessionStates, of the sessions in the order in which the map is gone through.
  unfoldable pub session_states : List ℕ → List ℕ
  unfolding insert
  session_states [] = []
  session_states (x ∷ xs) = insert x (session_states xs)

  before_total : (x y : ℕ) → name_of x ≢ name_of y → before x y ≡ not (before y x)
  unfolding before
  before_total x y n =
      ground (arith, bytes_less_total (name_of x) (name_of y), bytes_eq_iff (name_of x) (name_of y))

  before_trans : (x y z : ℕ) → before x y ≡ true → before y z ≡ true → before x z ≡ true
  unfolding before
  before_trans x y z p q = ground (arith, bytes_less_trans (name_of x) (name_of y) (name_of z))

  insert-insert :
      (x y : ℕ) (l : List ℕ) → name_of x ≢ name_of y → insert x (insert y l) ≡ insert y (insert x l)
  unfolding insert
  insert-insert x y [] n = ground (arith, before_total x y n)
  insert-insert x y (z ∷ l) n =
      ground
        (arith, before_total x y n, before_trans x y z, before_trans y x z, insert-insert x y l n)

  IsNamedApart-perm :
      {l l' : List ℕ} → Permᴰ l l' → IsNamedApart name_of l → IsNamedApart name_of l'
  IsNamedApart-perm p =
      Perm.pairwise {R = λ (x : ℕ) (y : ℕ). name_of x ≢ name_of y} (λ x y. ¬_prop)
        (λ x y n e. n (sym e)) ∣ p ∣₁

  session_states-Permᴰ :
      {l l' : List ℕ} → Permᴰ l l' → IsNamedApart name_of l → session_states l ≡ session_states l'
  unfolding session_states
  session_states-Permᴰ Permᴰ.nil d = refl
  session_states-Permᴰ (Permᴰ.cons e p) (Pairwise.cons out d) =
      ap₂ insert e (session_states-Permᴰ p d)
  session_states-Permᴰ (Permᴰ.swap {a = a} {b = b} {l = l} e f) (Pairwise.cons out d) =
      insert-insert a b (session_states l) (out b mem-cons_self)
      ∙ ap₂ (λ x y. insert x (insert y (session_states l))) f e
  session_states-Permᴰ (Permᴰ.trans p q) d =
      session_states-Permᴰ p d ∙ session_states-Permᴰ q (IsNamedApart-perm p d)

  insert-perm : (x : ℕ) (l : List ℕ) → Perm (insert x l) (x ∷ l)
  unfolding insert
  insert-perm x [] = Perm.rfl
  insert-perm x (y ∷ ys) = elim (Bool-cases (before x y)) [
    | inl e ↦ rw (e, insert) Perm.rfl
    | inr e ↦ rw (e, insert) (Perm.trans (Perm.cons y (insert-perm x ys)) (Perm.swap x y ys))
  ]

  session_states-perm : (l : List ℕ) → Perm (session_states l) l
  unfolding session_states
  session_states-perm [] = Perm.rfl
  session_states-perm (x ∷ l) =
      Perm.trans (insert-perm x (session_states l)) (Perm.cons x (session_states-perm l))

  -- A session was made before the next one, or at the same time and its name is not the later one.
  abbrev pub ComesFirst : ℕ → ℕ → Type 0
  ComesFirst x y =
      (created x < created y)
      ⊎ ((created x ≡ created y) × (bytes_less (name_of y) (name_of x) ≡ false))

  abbrev pub IsInOrder : List ℕ → Type 0
  IsInOrder [] = Unit {0}
  IsInOrder (x ∷ []) = Unit {0}
  IsInOrder (x ∷ y ∷ rest) = ComesFirst x y × IsInOrder (y ∷ rest)

  before-ComesFirst : (x y : ℕ) → before x y ≡ true → ComesFirst x y
  unfolding before
  before-ComesFirst x y e =
      ground (arith, bytes_less_total (name_of x) (name_of y), bytes_eq_iff (name_of x) (name_of y))

  not_before-ComesFirst : (x y : ℕ) → before x y ≡ false → ComesFirst y x
  unfolding before
  not_before-ComesFirst x y e = ground (arith, e)

  insert-IsInOrder : (x : ℕ) (l : List ℕ) → IsInOrder l → IsInOrder (insert x l)
  unfolding insert
  insert-IsInOrder x [] o = tt
  insert-IsInOrder x (y ∷ []) o = elim (Bool-cases (before x y)) [
    | inl e ↦ rw (e, insert) (before-ComesFirst x y e, tt)
    | inr e ↦ rw (e, insert) (not_before-ComesFirst x y e, tt)
  ]
  insert-IsInOrder x (y ∷ z ∷ rest) (first, o) = elim (Bool-cases (before x y)) [
    | inl e ↦ rw (e, insert) (before-ComesFirst x y e, (first, o))
    | inr e ↦ elim (Bool-cases (before x z)) [
      | inl f ↦ rw (e, f, insert) (not_before-ComesFirst x y e, (before-ComesFirst x z f, o))
      | inr f ↦ rw (e, f, insert) (first, rw (f, insert) at (insert-IsInOrder x (z ∷ rest) o))
    ]
  ]

  session_states-IsInOrder : (l : List ℕ) → IsInOrder (session_states l)
  unfolding session_states
  session_states-IsInOrder [] = tt
  session_states-IsInOrder (x ∷ l) =
      insert-IsInOrder x (session_states l) (session_states-IsInOrder l)

  -- For sessions of different names: the list has each of them once, each was made before the
  -- next one, or at the same time and then its name is not the later one, and the list is the
  -- same however the map is gone through.
  pub session_states_order :
      {l l' : List ℕ}
      → IsNamedApart name_of l
      → Perm l' l
      → Perm (session_states l) l
        × IsInOrder (session_states l)
        × (session_states l' ≡ session_states l)
  session_states_order {l} {l'} d p = (
    session_states-perm l,
    session_states-IsInOrder l,
    ∥∥₁_elim p (hlevel) (λ π. sym (session_states-Permᴰ (Permᴰ.symm π) d)),
  )
