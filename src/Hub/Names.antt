-- ===== src/Hub/Names.antt =====
-- util.go: the names that a session may have.
use ghostline.Prelude.{
  ℕ, suc, ◌≡◌, ◌≢◌, ◌↔◌, refl, Bool, false, ◌||◌, [], ◌∷◌, Bytes, length, Option, none, some,
  if◌then◌else◌, ◌==◌, bytes_eq, bytes_eq_iff, is_some, arith, inl, inr, Bool-cases,
}
use ghostline.Errors.{invalid_session_name, Result, ok, err}
use ghostline.Text.Search.{index_byte, later}
use ghostline.Text.Split.{Avoids}
use ghostline.Hub.{validate_name}

shifted : (o : Option ℕ) → is_some (later o) ≡ false → is_some o ≡ false
shifted none h = refl
shifted (some i) h = cc

unshifted : (o : Option ℕ) → is_some o ≡ false → is_some (later o) ≡ false
unshifted none h = refl
unshifted (some i) h = cc

index_byte-Avoids : (text : Bytes) (c : ℕ) → (is_some (index_byte text c) ≡ false) ↔ Avoids c text
unfolding index_byte
index_byte-Avoids [] c = ((λ _. tt), (λ _. refl))
index_byte-Avoids (x ∷ text) c = elim (Bool-cases (x == c)) [
  | inl e ↦ rw e ((λ h. cc), (λ h. absurd (ground (arith, h.0))))
  | inr n ↦ rw n (
    (λ h. (refl, (index_byte-Avoids text c).0 (shifted (index_byte text c) h))),
    (λ h. unshifted (index_byte text c) ((index_byte-Avoids text c).1 h.1)),
  )
]

suc_not_zero : (n : ℕ) → (suc n == 0) ≡ false
suc_not_zero n = ground arith

bytes_eq-false : (xs ys : Bytes) → (bytes_eq xs ys ≡ false) ↔ (xs ≢ ys)
bytes_eq-false xs ys = ground (arith, bytes_eq_iff xs ys)

-- An `if` with an error behind a chain of tests.
all_pass :
    (a b c d e : Bool)
    → (◌≡◌ {A = Result (Unit {0})}
        (if false || a || b || c || d || e then err invalid_session_name else ok tt)
        (ok tt))
      ↔ ((a ≡ false) × (b ≡ false) × (c ≡ false) × (d ≡ false) × (e ≡ false))
all_pass a b c d e = ground arith

-- A single component of a path.
abbrev pub IsPathComponent : Bytes → Type 0
IsPathComponent name =
    (name ≢ [])
    × (name ≢ b'.' ∷ [])
    × (name ≢ b'.' ∷ b'.' ∷ [])
    × Avoids b'/' name
    × Avoids b'\\' name
    × Avoids 0 name

-- A name passes exactly if it is a single component of a path: not empty, not "." or "..",
-- without a slash, a backslash or a NUL.
pub validate_name_exact : (name : Bytes) → (validate_name name ≡ ok tt) ↔ IsPathComponent name
unfolding validate_name
validate_name_exact [] = ((λ h. cc), (λ h. elim (h.0 refl) [ ]))
validate_name_exact (c ∷ name) =
    let n = c ∷ name in
    let (to, from) =
      all_pass (bytes_eq n (b'.' ∷ [])) (bytes_eq n (b'.' ∷ b'.' ∷ []))
        (is_some (index_byte n b'/')) (is_some (index_byte n b'\\')) (is_some (index_byte n 0)) in
    rw (suc_not_zero (length name), validate_name)
      (
        (λ h.
            let (d, dd, s, k, z) = to h in
            (
              (λ e. cc),
              (bytes_eq-false n (b'.' ∷ [])).0 d,
              (bytes_eq-false n (b'.' ∷ b'.' ∷ [])).0 dd,
              (index_byte-Avoids n b'/').0 s,
              (index_byte-Avoids n b'\\').0 k,
              (index_byte-Avoids n 0).0 z,
            )),
        (λ h. from (
          (bytes_eq-false n (b'.' ∷ [])).1 h.1,
          (bytes_eq-false n (b'.' ∷ b'.' ∷ [])).1 h.2,
          (index_byte-Avoids n b'/').1 h.3,
          (index_byte-Avoids n b'\\').1 h.4,
          (index_byte-Avoids n 0).1 h.5,
        )),
      )
