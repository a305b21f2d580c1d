-- ===== src/Pwd/Decode.antt =====
-- pwd.go: percent decoding undoes every percent encoding.
use ghostline.Prelude.{
  ℕ, ◌+◌, ◌-◌, ◌*◌, ◌/◌, ◌%◌, ◌<◌, ◌≡◌, refl, ap, ◌∙◌, Bool, true, false, [], ◌∷◌, Bytes, none,
  some, ltb, ◌==◌, if◌then◌else◌, arith, Bool-cases, Option-cases, inl, inr, sym, ==_iff,
}
use ghostline.Text.Search.{index, has_prefix}
use ghostline.Pwd.{hex_value, onto, decode_loop, percent_decode}

abbrev hex_digit : ℕ → ℕ
hex_digit n = if ltb n 10 then b'0' + n else b'A' + (n - 10)

-- The bytes that `safe` accepts stand for themselves, the others are escaped.
abbrev pub percent_encode : (ℕ → Bool) → Bytes → Bytes
percent_encode safe [] = []
percent_encode safe (c ∷ text) =
    if safe c
    then c ∷ percent_encode safe text
    else b'%' ∷ hex_digit (c / 16) ∷ hex_digit (c % 16) ∷ percent_encode safe text

abbrev pub AreBytes : Bytes → Type 0
AreBytes [] = Unit {0}
AreBytes (c ∷ text) = (c < 256) × AreBytes text

hex_value-hex_digit : (n : ℕ) → n < 16 → hex_value (hex_digit n) ≡ some n
unfolding hex_value
hex_value-hex_digit n h = ground arith

decode_loop-plain :
    (c : ℕ) (text : Bytes)
    → (c == b'%') ≡ false
    → decode_loop (c ∷ text) ≡ onto c (decode_loop text)
unfolding decode_loop
decode_loop-plain c [] h = rw h refl
decode_loop-plain c (d ∷ []) h = rw h refl
decode_loop-plain c (d ∷ e ∷ rest) h = rw (h, decode_loop) refl

decode_loop-empty : decode_loop [] ≡ some []
unfolding decode_loop
decode_loop-empty = refl

decode_loop-escaped :
    (h l a b : ℕ) (rest : Bytes)
    → hex_value h ≡ some a
    → hex_value l ≡ some b
    → decode_loop (b'%' ∷ h ∷ l ∷ rest) ≡ onto (a * 16 + b) (decode_loop rest)
unfolding decode_loop
decode_loop-escaped h l a b rest e f = rw (e, f, decode_loop) refl

not_percent : (safe : ℕ → Bool) (c : ℕ) → safe b'%' ≡ false → safe c ≡ true → (c == b'%') ≡ false
not_percent safe c s e = elim (Bool-cases (c == b'%')) [
  | inl same ↦ ground (arith, ap safe ((==_iff c b'%').0 same))
  | inr other ↦ other
]

decode_loop-encode :
    (safe : ℕ → Bool) (text : Bytes)
    → safe b'%' ≡ false
    → AreBytes text
    → decode_loop (percent_encode safe text) ≡ some text
decode_loop-encode safe [] s h = decode_loop-empty
decode_loop-encode safe (c ∷ text) s h = elim (Bool-cases (safe c)) [
  | inl e ↦ rw e (
      decode_loop-plain c (percent_encode safe text) (not_percent safe c s e)
      ∙ ap (onto c) (decode_loop-encode safe text s h.1))
  | inr n ↦ rw n (
      decode_loop-escaped (hex_digit (c / 16)) (hex_digit (c % 16)) (c / 16) (c % 16)
        (percent_encode safe text) (hex_value-hex_digit (c / 16) (omega (arith, h.0)))
        (hex_value-hex_digit (c % 16) (omega arith))
      ∙ ap (onto _) (decode_loop-encode safe text s h.1)
      ∙ ap (λ d. some (d ∷ text)) (omega arith))
]

decode_loop-unescaped :
    (text : Bytes) → index text (b'%' ∷ []) ≡ none → decode_loop text ≡ some text
unfolding index has_prefix decode_loop
decode_loop-unescaped [] e = refl
decode_loop-unescaped (c ∷ text) e = elim (Option-cases (index text (b'%' ∷ []))) [
  | inl f ↦ decode_loop-plain c text (ground arith) ∙ ap (onto c) (decode_loop-unescaped text f)
  | inr (i, f) ↦ ground arith
]

-- Whichever bytes are escaped, as long as the percent sign is, decoding gives the text back.
pub percent_decode-encode :
    (safe : ℕ → Bool) (text : Bytes)
    → safe b'%' ≡ false
    → AreBytes text
    → percent_decode (percent_encode safe text) ≡ some text
unfolding percent_decode
percent_decode-encode safe text s h =
    let encoded = percent_encode safe text in
    elim (Option-cases (index encoded (b'%' ∷ []))) [
      | inl e ↦
          rw (e, percent_decode)
            (sym (decode_loop-unescaped encoded e) ∙ decode_loop-encode safe text s h)
      | inr (i, e) ↦ rw (e, percent_decode) (decode_loop-encode safe text s h)
    ]
