-- ===== src/Text/Trim.antt =====
-- Text without white space is left as it is by `strings.TrimSpace`.
use ghostline.Prelude.{
  List, leb, ◌||◌, ◌&&◌, ℕ, zero, suc, ◌≤◌, ◌≡◌, refl, ap, ◌∙◌, Bool, true, false, [], ◌∷◌, ◌++◌,
  Bytes, length, none, arith, map, append-nil,
}
use ghostline.Text.Search.{has_prefix}
use ghostline.Text.Space.{spaces, strip, strip_all, trim_space, reverse, reverse_onto}

-- Printable ASCII characters other than the space.
abbrev pub IsGraphic : Bytes → Type 0
IsGraphic [] = Unit {0}
IsGraphic (c ∷ text) = ((33 ≤ c) × (c ≤ 126)) × IsGraphic text

-- Each part begins with a byte that is not graphic.
abbrev are_foreign : List Bytes → Bool
are_foreign [] = true
are_foreign ([] ∷ parts) = false
are_foreign ((p ∷ part) ∷ parts) = (leb p 32 || leb 127 p) && are_foreign parts

strip-graphic :
    (parts : List Bytes) (c : ℕ) (text : Bytes)
    → are_foreign parts ≡ true
    → 33 ≤ c
    → c ≤ 126
    → strip parts (c ∷ text) ≡ none
unfolding strip has_prefix
strip-graphic [] c text f h k = refl
strip-graphic ([] ∷ parts) c text f h k = cc
strip-graphic ((p ∷ part) ∷ parts) c text f h k = ground (arith, strip-graphic parts c text)

strip-empty : (parts : List Bytes) → are_foreign parts ≡ true → strip parts [] ≡ none
unfolding strip has_prefix
strip-empty [] f = refl
strip-empty ([] ∷ parts) f = cc
strip-empty ((p ∷ part) ∷ parts) f = ground (arith, strip-empty parts)

strip_all-IsGraphic :
    (n : ℕ) (parts : List Bytes) (text : Bytes)
    → are_foreign parts ≡ true
    → IsGraphic text
    → strip_all n parts text ≡ text
unfolding strip_all
strip_all-IsGraphic zero parts text f g = refl
strip_all-IsGraphic (suc n) parts [] f g = rw (strip-empty parts f, strip_all) refl
strip_all-IsGraphic (suc n) parts (c ∷ text) f g =
    rw (strip-graphic parts c text f g.0.0 g.0.1, strip_all) refl

reverse_onto-reverse_onto :
    (xs acc rest : Bytes) → reverse_onto (reverse_onto xs acc) rest ≡ reverse_onto acc (xs ++ rest)
reverse_onto-reverse_onto [] acc rest = refl
reverse_onto-reverse_onto (x ∷ xs) acc rest = reverse_onto-reverse_onto xs (x ∷ acc) rest

pub reverse-reverse : (text : Bytes) → reverse (reverse text) ≡ text
reverse-reverse text = reverse_onto-reverse_onto text [] [] ∙ append-nil text

IsGraphic-reverse_onto :
    (text acc : Bytes) → IsGraphic text → IsGraphic acc → IsGraphic (reverse_onto text acc)
IsGraphic-reverse_onto [] acc g a = a
IsGraphic-reverse_onto (c ∷ text) acc g a = IsGraphic-reverse_onto text (c ∷ acc) g.1 (g.0, a)

trim-parts :
    (left right : List Bytes) (text : Bytes)
    → are_foreign left ≡ true
    → are_foreign right ≡ true
    → IsGraphic text
    → reverse (
        strip_all
          (length (strip_all (length text) left text))
          right
          (reverse (strip_all (length text) left text)))
      ≡ text
trim-parts left right text f h g = rw (strip_all-IsGraphic (length text) left text f g) (
    ap reverse (
      strip_all-IsGraphic (length text) right (reverse text) h
        (IsGraphic-reverse_onto text [] g tt))
    ∙ reverse-reverse text)

-- Graphic text has nothing to trim.
pub trim_space-IsGraphic : (text : Bytes) → IsGraphic text → trim_space text ≡ text
unfolding trim_space
trim_space-IsGraphic text g = trim-parts spaces (map reverse spaces) text refl refl g
