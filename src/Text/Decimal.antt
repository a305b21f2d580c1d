-- ===== src/Text/Decimal.antt =====
-- `strconv.FormatUint(n, 10)` and `strconv.ParseUint(s, 10, bits)`. A number of w bits is a
-- natural number below 2^w, and the bound of the parser is its largest value.
use ghostline.Prelude.{
  ℕ, zero, suc, ◌+◌, ◌-◌, ◌*◌, ◌/◌, ◌%◌, ◌≤◌, ◌<◌, ◌≡◌, refl, ap, Bool, false, ◌&&◌, [], ◌∷◌, arith,
  Bytes, Option, none, some, ltb, leb, length, if◌then◌else◌, Bool-cases, inl, inr, ◌∙◌,
}
use ghostline.Text.Split.{Avoids}

abbrev pub is_digit : ℕ → Bool
is_digit c = leb b'0' c && leb c b'9'

-- Digits are written from the last to the first. The fuel is more than the number of digits.
digits_from : ℕ → ℕ → Bytes → Bytes
digits_from zero n acc = acc
digits_from (suc f) n acc =
    let rest = digits_from f (n / 10) ((b'0' + n % 10) ∷ acc) in
    if ltb n 10 then (b'0' + n) ∷ acc else rest

unfoldable pub format_uint : ℕ → Bytes
unfolding digits_from
format_uint n = digits_from (suc n) n []

-- fmt.Sprintf("%0*d", width, n)
unfoldable pub pad : ℕ → Bytes → Bytes
pad zero text = text
pad (suc n) text = b'0' ∷ pad n text

unfoldable pub format_padded : ℕ → ℕ → Bytes
unfolding pad
format_padded width n = pad (width - length (format_uint n)) (format_uint n)

-- The accumulator stays within the bound, or the parse fails (strconv.ErrRange).
unfoldable pub parse_from : ℕ → ℕ → Bytes → Option ℕ
parse_from bound n [] = some n
parse_from bound n (c ∷ cs) =
    let rest = parse_from bound (n * 10 + (c - b'0')) cs in
    if is_digit c && leb (n * 10 + (c - b'0')) bound then rest else none

-- An empty text is no number (strconv.ErrSyntax).
unfoldable pub parse_uint : ℕ → Bytes → Option ℕ
unfolding parse_from
parse_uint bound [] = none
parse_uint bound (c ∷ cs) = parse_from bound 0 (c ∷ cs)

parse_from_step :
    (bound n d : ℕ) (acc : Bytes)
    → d < 10
    → n * 10 + d ≤ bound
    → parse_from bound n ((b'0' + d) ∷ acc) ≡ parse_from bound (n * 10 + d) acc
unfolding parse_from
parse_from_step bound n d acc h k = ground arith

-- Printing `n` in front of `acc` is parsed as `n`, then `acc`.
parse-digits_from :
    (f n bound : ℕ) (acc : Bytes)
    → n < f
    → n ≤ bound
    → parse_from bound 0 (digits_from f n acc) ≡ parse_from bound n acc
unfolding digits_from
parse-digits_from zero n bound acc h k = elim h [ ]
parse-digits_from (suc f) n bound acc h k = elim (Bool-cases (ltb n 10)) [
  | inl small ↦ rw small (
      parse_from_step bound 0 n acc (ground arith) (omega arith)
      ∙ ap (λ m. parse_from bound m acc) (omega arith))
  | inr large ↦ rw large (
      parse-digits_from f (n / 10) bound ((b'0' + n % 10) ∷ acc) (ground arith) (omega arith)
      ∙ parse_from_step bound (n / 10) (n % 10) acc (omega arith) (omega arith)
      ∙ ap (λ m. parse_from bound m acc) (omega arith))
]

-- Something is written, so that the text is not the empty one.
digits_from-cons :
    (f n : ℕ) (acc : Bytes) → (c : ℕ) × (cs : Bytes) × (digits_from (suc f) n acc ≡ c ∷ cs)
unfolding digits_from
digits_from-cons zero n acc = elim (Bool-cases (ltb n 10)) [
  | inl small ↦ (b'0' + n, acc, rw small)
  | inr large ↦ (b'0' + n % 10, acc, rw large)
]
digits_from-cons (suc f) n acc = elim (Bool-cases (ltb n 10)) [
  | inl small ↦ (b'0' + n, acc, rw small)
  | inr large ↦
      let (c, cs, e) = digits_from-cons f (n / 10) ((b'0' + n % 10) ∷ acc) in (c, cs, rw large e)
]

parse_uint_cons :
    (bound : ℕ) (text : Bytes) {c : ℕ} {cs : Bytes}
    → text ≡ c ∷ cs
    → parse_uint bound text ≡ parse_from bound 0 text
unfolding parse_uint
parse_uint_cons bound [] e = cc
parse_uint_cons bound (c ∷ cs) e = refl

-- What ParseUint reads of FormatUint's text is the number, for every number within the bound.
pub parse-format : (bound n : ℕ) → n ≤ bound → parse_uint bound (format_uint n) ≡ some n
unfolding format_uint parse_from
parse-format bound n h =
    parse_uint_cons bound (format_uint n) (digits_from-cons n n []).2
    ∙ parse-digits_from (suc n) n bound [] (omega arith) h

digits_from-Avoids :
    (c f n : ℕ) (acc : Bytes) → is_digit c ≡ false → Avoids c acc → Avoids c (digits_from f n acc)
unfolding digits_from
digits_from-Avoids c zero n acc h a = a
digits_from-Avoids c (suc f) n acc h a = elim (Bool-cases (ltb n 10)) [
  | inl small ↦ rw small (ground arith, a)
  | inr large ↦
      rw large (digits_from-Avoids c f (n / 10) ((b'0' + n % 10) ∷ acc) h (ground arith, a))
]

-- A printed number holds digits only.
pub format_uint-Avoids : (c n : ℕ) → is_digit c ≡ false → Avoids c (format_uint n)
unfolding format_uint
format_uint-Avoids c n h = digits_from-Avoids c (suc n) n [] h tt

parse_from-le :
    (bound n : ℕ) (text : Bytes) (m : ℕ) → n ≤ bound → parse_from bound n text ≡ some m → m ≤ bound
unfolding parse_from
parse_from-le bound n [] m h e = ground arith
parse_from-le bound n (c ∷ cs) m h e =
    ground (arith, parse_from-le bound (n * 10 + (c - b'0')) cs m)

pub parse_uint-le : (bound : ℕ) (text : Bytes) {m : ℕ} → parse_uint bound text ≡ some m → m ≤ bound
unfolding parse_uint
parse_uint-le bound [] e = cc
parse_uint-le bound (c ∷ cs) e = parse_from-le bound 0 (c ∷ cs) _ (omega arith) e
