-- ===== src/Text/Search.antt =====
-- `bytes.HasPrefix`, `bytes.Index` and `bytes.IndexByte`.
use ghostline.Prelude.{
  ℕ, suc, ◌+◌, ◌≤◌, ◌≡◌, refl, Bool, true, false, ◌&&◌, [], ◌∷◌, ◌++◌, arith, Bytes, length, Option,
  none, some, ◌==◌, if◌then◌else◌, ==_refl, Bool-cases, Option-cases, inl, inr,
}

abbrev pub later : Option ℕ → Option ℕ
later none = none
later (some i) = some (suc i)

-- bytes.HasPrefix(text, prefix)
unfoldable pub has_prefix : Bytes → Bytes → Bool
has_prefix text [] = true
has_prefix [] (p ∷ prefix) = false
has_prefix (x ∷ text) (p ∷ prefix) = (x == p) && has_prefix text prefix

-- bytes.Index(text, part)
unfoldable pub index : Bytes → Bytes → Option ℕ
unfolding has_prefix
index [] part = if has_prefix [] part then some 0 else none
index (x ∷ text) part =
    let rest = index text part in if has_prefix (x ∷ text) part then some 0 else later rest

-- bytes.IndexByte(text, c)
unfoldable pub index_byte : Bytes → ℕ → Option ℕ
index_byte [] c = none
index_byte (x ∷ text) c = if x == c then some 0 else later (index_byte text c)

pub has_prefix-append : (prefix text : Bytes) → has_prefix (prefix ++ text) prefix ≡ true
unfolding has_prefix
has_prefix-append [] text = refl
has_prefix-append (p ∷ prefix) text = rw (==_refl p, has_prefix-append prefix text)

pub has_prefix-le :
    (text prefix : Bytes) → has_prefix text prefix ≡ true → length prefix ≤ length text
unfolding has_prefix
has_prefix-le text [] h = omega arith
has_prefix-le [] (p ∷ prefix) h = cc
has_prefix-le (x ∷ text) (p ∷ prefix) h = ground (arith, has_prefix-le text prefix)

-- What is found lies inside the text.
pub index-le :
    (text part : Bytes) {i : ℕ} → index text part ≡ some i → i + length part ≤ length text
unfolding index
index-le [] part h = ground (arith, has_prefix-le [] part)
index-le (x ∷ text) part h = elim (Bool-cases (has_prefix (x ∷ text) part)) [
  | inl e ↦ ground (arith, has_prefix-le (x ∷ text) part)
  | inr n ↦ elim (Option-cases (index text part)) [
    | inl none_left ↦ ground arith
    | inr (j, e) ↦ ground (arith, index-le text part e)
  ]
]
