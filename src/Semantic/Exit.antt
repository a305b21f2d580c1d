-- ===== src/Semantic/Exit.antt =====
-- The exit status in an OSC 133;D marker against a parse of its digits.
use ghostline.Prelude.{
  ℕ, zero, suc, ◌+◌, ◌-◌, ◌*◌, ◌/◌, ◌≤◌, ◌<◌, ◌≡◌, refl, Bool, true, false, [], ◌∷◌, arith, Bytes,
  length, ◌++◌, Option, none, some, leb, ◌==◌, if◌then◌else◌, Bool-cases, inl, inr,
}
use ghostline.Text.Decimal.{is_digit, parse_from, parse_uint}
use ghostline.Text.Split.{Avoids}
use ghostline.Semantic.{exit_digits, parse_osc133_exit}

-- The numbers that have room for `r` more digits: below 10^(6 - r).
abbrev room : ℕ → ℕ
room zero = 1000000
room (suc r) = room r / 10

-- Nothing follows, or a field that the scan does not read.
abbrev pub EndsField : Bytes → Type 0
EndsField [] = Unit {0}
EndsField (c ∷ rest) = c ≡ b';'

abbrev pub status : Option ℕ → ℕ × Bool
status none = (0, false)
status (some n) = (n, true)

exit_digits_end :
    (value digits : ℕ) (tail : Bytes)
    → EndsField tail
    → exit_digits value (suc digits) tail ≡ (value, true)
unfolding exit_digits
exit_digits_end value digits [] h = ground arith
exit_digits_end value digits (c ∷ tail) h = ground arith

room-le : (r : ℕ) → room r ≤ 1000000
room-le zero = omega arith
room-le (suc r) = omega (arith, room-le r)

-- One digit of both parsers.
digit_step :
    (c : ℕ) (more text : Bytes) (value digits : ℕ)
    → ((c == b';') ≡ false)
    → suc digits + suc (length text) ≤ 6
    → value < room (length text) / 10
    → room (length text) ≤ 1000000
    → (value * 10 + (c - b'0') < room (length text)
        → exit_digits (value * 10 + (c - b'0')) (suc (suc digits)) more
          ≡ status (parse_from 999999 (value * 10 + (c - b'0')) text))
    → exit_digits value (suc digits) (c ∷ more) ≡ status (parse_from 999999 value (c ∷ text))
unfolding exit_digits parse_from
digit_step c more text value digits a h r b next = elim (Bool-cases (is_digit c)) [
  | inl e ↦ ground (arith, next (ground arith))
  | inr n ↦ ground arith
]

exit_digits-parse_from :
    (text tail : Bytes) (value digits : ℕ)
    → Avoids b';' text
    → EndsField tail
    → suc digits + length text ≤ 6
    → value < room (length text)
    → exit_digits value (suc digits) (text ++ tail) ≡ status (parse_from 999999 value text)
unfolding parse_from
exit_digits-parse_from [] tail value digits a t h r = exit_digits_end value digits tail t
exit_digits-parse_from (c ∷ text) tail value digits a t h r =
    digit_step c (text ++ tail) text value digits a.0 (omega arith) (omega arith)
      (room-le (length text))
      (λ room_left.
        exit_digits-parse_from text tail (value * 10 + (c - b'0')) (suc digits) a.1 t (omega arith)
          room_left)

exit_digits-long :
    (text tail : Bytes) (value digits : ℕ)
    → Avoids b';' text
    → digits ≤ 6
    → 6 < digits + length text
    → exit_digits value digits (text ++ tail) ≡ (0, false)
unfolding exit_digits
exit_digits-long [] tail value digits a h k = absurd (omega arith)
exit_digits-long (c ∷ text) tail value digits a h k =
    ground (arith, exit_digits-long text tail (value * 10 + (c - b'0')) (suc digits))

room_pos : (r : ℕ) → r ≤ 6 → 0 < room r
room_pos zero h = omega arith
room_pos (suc zero) h = omega arith
room_pos (suc (suc zero)) h = omega arith
room_pos (suc (suc (suc zero))) h = omega arith
room_pos (suc (suc (suc (suc zero)))) h = omega arith
room_pos (suc (suc (suc (suc (suc zero))))) h = omega arith
room_pos (suc (suc (suc (suc (suc (suc zero)))))) h = omega arith
room_pos (suc (suc (suc (suc (suc (suc (suc r))))))) h = absurd (omega arith)

first_digit : (c r : ℕ) → is_digit c ≡ true → 0 < room (suc r) → 0 + (c - b'0') < room r
first_digit c r e h = ground arith

exit_first :
    (text tail : Bytes)
    → Avoids b';' text
    → EndsField tail
    → length text ≤ 6
    → exit_digits 0 0 (text ++ tail) ≡ status (parse_uint 999999 text)
unfolding exit_digits parse_uint parse_from
exit_first [] [] a t h = refl
exit_first [] (d ∷ tail) a t h = ground arith
exit_first (c ∷ text) tail a t h = elim (Bool-cases (is_digit c)) [
  | inl e ↦ ground (
    arith,
    exit_digits-parse_from text tail (0 + (c - b'0')) 0 a.1 t (omega arith)
        (first_digit c (length text) e (room_pos (suc (length text)) h)),
  )
  | inr n ↦ ground arith
]

-- The status field of a marker, up to its end or a further field, is read as ParseUint reads it
-- with the bound 999999 if it has at most six bytes, and is unknown if it is longer.
pub parse_osc133_exit_exact :
    (text tail : Bytes)
    → Avoids b';' text
    → EndsField tail
    → parse_osc133_exit (b';' ∷ text ++ tail)
      ≡ (if leb (length text) 6 then status (parse_uint 999999 text) else (0, false))
unfolding parse_osc133_exit
parse_osc133_exit_exact text tail a t = elim (Bool-cases (leb (length text) 6)) [
  | inl e ↦ rw e (exit_first text tail a t (ground arith))
  | inr n ↦ rw n (exit_digits-long text tail 0 0 a (omega arith) (ground arith))
]
