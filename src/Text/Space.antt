-- ===== src/Text/Space.antt =====
-- `strings.TrimSpace`, `strings.ToLower` on ASCII text, and hexadecimal digits.
use ghostline.Prelude.{
  ℕ, zero, suc, ◌+◌, Bool, true, ◌&&◌, ◌||◌, List, [], ◌∷◌, map, Bytes, length, drop, Option, none,
  some, leb, if◌then◌else◌,
}
use ghostline.Text.Search.{has_prefix}

-- unicode.IsSpace: each white space in UTF-8.
abbrev pub spaces : List Bytes
spaces =
    (9 ∷ [])
    ∷ (10 ∷ [])
    ∷ (11 ∷ [])
    ∷ (12 ∷ [])
    ∷ (13 ∷ [])
    ∷ (32 ∷ [])
    ∷ (194 ∷ 133 ∷ [])
    ∷ (194 ∷ 160 ∷ [])
    ∷ (225 ∷ 154 ∷ 128 ∷ [])
    ∷ (226 ∷ 128 ∷ 128 ∷ [])
    ∷ (226 ∷ 128 ∷ 129 ∷ [])
    ∷ (226 ∷ 128 ∷ 130 ∷ [])
    ∷ (226 ∷ 128 ∷ 131 ∷ [])
    ∷ (226 ∷ 128 ∷ 132 ∷ [])
    ∷ (226 ∷ 128 ∷ 133 ∷ [])
    ∷ (226 ∷ 128 ∷ 134 ∷ [])
    ∷ (226 ∷ 128 ∷ 135 ∷ [])
    ∷ (226 ∷ 128 ∷ 136 ∷ [])
    ∷ (226 ∷ 128 ∷ 137 ∷ [])
    ∷ (226 ∷ 128 ∷ 138 ∷ [])
    ∷ (226 ∷ 128 ∷ 168 ∷ [])
    ∷ (226 ∷ 128 ∷ 169 ∷ [])
    ∷ (226 ∷ 128 ∷ 175 ∷ [])
    ∷ (226 ∷ 129 ∷ 159 ∷ [])
    ∷ (227 ∷ 128 ∷ 128 ∷ [])
    ∷ []

abbrev pub reverse_onto : Bytes → Bytes → Bytes
reverse_onto [] acc = acc
reverse_onto (x ∷ xs) acc = reverse_onto xs (x ∷ acc)

abbrev pub reverse : Bytes → Bytes
reverse text = reverse_onto text []

-- What is left behind one of the parts, if the text begins with it.
unfoldable pub strip : List Bytes → Bytes → Option Bytes
strip [] text = none
strip (part ∷ parts) text =
    let rest = strip parts text in
    if has_prefix text part then some (drop (length part) text) else rest

-- At most as many white spaces as the text has bytes are cut off.
unfoldable pub strip_all : ℕ → List Bytes → Bytes → Bytes
unfolding strip
strip_all zero parts text = text
strip_all (suc n) parts text = elim (strip parts text) [
  | none ↦ text
  | some rest ↦ strip_all n parts rest
]

-- strings.TrimSpace
unfoldable pub trim_space : Bytes → Bytes
unfolding strip_all
trim_space text =
    let left = strip_all (length text) spaces text in
    reverse (strip_all (length left) (map reverse spaces) (reverse left))

abbrev pub is_upper : ℕ → Bool
is_upper c = leb b'A' c && leb c b'Z'

abbrev pub lower : ℕ → ℕ
lower c = if is_upper c then c + 32 else c

-- strings.ToLower on ASCII text.
abbrev pub to_lower : Bytes → Bytes
to_lower text = map lower text

abbrev pub is_hex : ℕ → Bool
is_hex c = (leb b'0' c && leb c b'9') || (leb b'a' c && leb c b'f') || (leb b'A' c && leb c b'F')

abbrev pub all_hex : Bytes → Bool
all_hex [] = true
all_hex (c ∷ text) = is_hex c && all_hex text
