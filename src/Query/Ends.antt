-- ===== src/Query/Ends.antt =====
-- Where a sequence ends does not depend on the bytes behind it.
use ghostline.Prelude.{
  ℕ, zero, suc, ◌+◌, ◌<◌, ◌≡◌, refl, ap, Bool, true, false, [], ◌∷◌, ◌++◌, Bytes, length, arith,
  drop, some, ◌==◌, Bool-cases, inl, inr, drop-nil,
}
use ghostline.Text.Search.{index_byte}
use ghostline.Query.{SequenceEnd, complete, broken, partial, csi_final, osc_end, escape}

-- The last byte is not an escape.
abbrev pub EndsPlain : Bytes → Type 0
EndsPlain [] = Unit {0}
EndsPlain (c ∷ []) = (c == escape) ≡ false
EndsPlain (c ∷ d ∷ rest) = EndsPlain (d ∷ rest)

abbrev pub is_decided : SequenceEnd → Bool
is_decided (complete i) = true
is_decided (broken i) = true
is_decided partial = false

pub csi_final-append :
    (body more : Bytes) (i : ℕ)
    → is_decided (csi_final body i) ≡ true
    → csi_final (body ++ more) i ≡ csi_final body i
unfolding csi_final
csi_final-append [] more i d = cc
csi_final-append (c ∷ body) more i d = ground (arith, csi_final-append body more (suc i))

pub osc_end-append :
    (body more : Bytes) (i : ℕ)
    → EndsPlain body
    → is_decided (osc_end body i) ≡ true
    → osc_end (body ++ more) i ≡ osc_end body i
unfolding osc_end
osc_end-append [] more i p d = cc
osc_end-append (c ∷ []) more i p d = ground (arith, osc_end-append [] more (suc i) tt)
osc_end-append (c ∷ e ∷ body) more i p d = ground (arith, osc_end-append (e ∷ body) more (suc i) p)

pub csi_final-lt : (body : Bytes) (i j : ℕ) → csi_final body i ≡ complete j → j < i + length body
unfolding csi_final
csi_final-lt [] i j e = cc
csi_final-lt (c ∷ body) i j e = ground (arith, csi_final-lt body (suc i) j)

pub osc_end-le : (body : Bytes) (i j : ℕ) → osc_end body i ≡ complete j → j < i + length body
unfolding osc_end
osc_end-le [] i j e = cc
osc_end-le (c ∷ []) i j e = ground (arith, osc_end-le [] (suc i) j)
osc_end-le (c ∷ d ∷ body) i j e = ground (arith, osc_end-le (d ∷ body) (suc i) j)

-- The text from the first occurrence on.
pub index_byte-drop :
    (text more : Bytes) (c i : ℕ)
    → index_byte text c ≡ some i
    → (rest : Bytes) × (drop i text ≡ c ∷ rest)
      × (drop i (text ++ more) ≡ drop i text ++ more)
      × (index_byte (text ++ more) c ≡ some i)
unfolding index_byte
index_byte-drop [] more c i e = cc
index_byte-drop (x ∷ text) more c zero e = elim (Bool-cases (x == c)) [
  | inl same ↦ (text, ap (λ y. y ∷ text) (ground arith), refl, rw same refl)
  | inr other ↦ ground arith
]
index_byte-drop (x ∷ text) more c (suc i) e = elim (Bool-cases (x == c)) [
  | inl same ↦ ground arith
  | inr other ↦
      let (rest, d, a, n) = index_byte-drop text more c i (ground arith) in
      (rest, d, a, rw (other, n) refl)
]

pub EndsPlain-drop : (n : ℕ) (text : Bytes) → EndsPlain text → EndsPlain (drop n text)
EndsPlain-drop zero text h = h
EndsPlain-drop (suc n) [] h = tt
EndsPlain-drop (suc n) (c ∷ []) h = rw (drop-nil n) tt
EndsPlain-drop (suc n) (c ∷ d ∷ text) h = EndsPlain-drop n (d ∷ text) h
