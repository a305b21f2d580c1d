-- ===== src/Text/Split.antt =====
-- `strings.Split` on a one-byte separator.
use ghostline.Prelude.{
  ℕ, ◌≡◌, refl, ap, false, List, [], ◌∷◌, ◌++◌, Bytes, ◌==◌, if◌then◌else◌, ==_refl,
}

-- A byte joins the first part.
abbrev pub onto_head : ℕ → List Bytes → List Bytes
onto_head x [] = (x ∷ []) ∷ []
onto_head x (part ∷ parts) = (x ∷ part) ∷ parts

unfoldable pub split : ℕ → Bytes → List Bytes
split c [] = [] ∷ []
split c (x ∷ xs) = if x == c then [] ∷ split c xs else onto_head x (split c xs)

-- No byte of the text is `c`.
abbrev pub Avoids : ℕ → Bytes → Type 0
Avoids c [] = Unit {0}
Avoids c (x ∷ xs) = ((x == c) ≡ false) × Avoids c xs

pub split-part :
    (c : ℕ) (part rest : Bytes) → Avoids c part → split c (part ++ c ∷ rest) ≡ part ∷ split c rest
unfolding split
split-part c [] rest h = rw (==_refl c)
split-part c (x ∷ part) rest h = rw h.0 (ap (onto_head x) (split-part c part rest h.1))

pub split-last : (c : ℕ) (part : Bytes) → Avoids c part → split c part ≡ part ∷ []
unfolding split
split-last c [] h = refl
split-last c (x ∷ part) h = rw h.0 (ap (onto_head x) (split-last c part h.1))
