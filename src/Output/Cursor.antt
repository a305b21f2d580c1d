-- ===== src/Output/Cursor.antt =====
-- output.go, the type `Cursor`: positions in a session's output, and their text form.
pub mod RoundTrip
pub mod Distance
pub mod Examples
use ghostline.Prelude.{
  ℕ, ◌+◌, ◌-◌, ◌≤◌, ◌≡◌, ◌↔◌, Bool, true, false, ◌&&◌, ◌||◌, not, Option, none, some, List, [], ◌∷◌,
  ◌++◌, arith, Bytes, ltb, leb, ◌==◌, if◌then◌else◌, bytes_eq,
}
use ghostline.Errors.{Error, invalid_cursor, Result, ok, err}
use ghostline.Text.Decimal.{format_uint, parse_uint}
use ghostline.Text.Split.{split}

pub record Cursor : Type 0 where
  pub generation : ℕ  -- uint64
  pub offset : ℕ  -- uint64

abbrev pub zero_cursor : Cursor
zero_cursor = record { generation = 0; offset = 0 }

abbrev pub cursor_eq : Cursor → Cursor → Bool
cursor_eq c d = (c.generation == d.generation) && (c.offset == d.offset)

pub cursor_eq_iff : (c d : Cursor) → (cursor_eq c d ≡ true) ↔ (c ≡ d)
cursor_eq_iff c d = ground arith

abbrev pub max_uint64 : ℕ
max_uint64 = 18446744073709551615

-- math.MaxInt64, which is also the bound of ParseUint with 63 bits
abbrev pub max_int64 : ℕ
max_int64 = 9223372036854775807

-- "v1"
abbrev pub version_tag : Bytes
version_tag = b'v' ∷ b'1' ∷ []

cursor_of : Option ℕ → Option ℕ → Result Cursor
cursor_of none offset = err invalid_cursor
cursor_of (some generation) none = err invalid_cursor
cursor_of (some generation) (some offset) =
    if generation == 0
    then err invalid_cursor
    else ok (record { generation = generation; offset = offset })

-- The test `len(parts) != 3 || parts[0] != "v1"`, and the two numbers behind it.
parse_parts : List Bytes → Result Cursor
unfolding cursor_of
parse_parts (tag ∷ generation ∷ offset ∷ []) =
    if bytes_eq tag version_tag
    then cursor_of (parse_uint max_uint64 generation) (parse_uint max_int64 offset)
    else err invalid_cursor
parse_parts _ = err invalid_cursor

unfoldable pub parse_cursor : Bytes → Result Cursor
unfolding parse_parts
parse_cursor [] = ok zero_cursor
parse_cursor (c ∷ cs) = parse_parts (split b':' (c ∷ cs))

-- Cursor.String
unfoldable pub to_string : Cursor → Bytes
to_string c =
    if cursor_eq c zero_cursor
    then []
    else version_tag ++ (b':' ∷ (format_uint c.generation ++ (b':' ∷ format_uint c.offset)))

unfoldable pub marshal_text : Cursor → Result Bytes
marshal_text c =
    if (c.generation == 0) && not (c.offset == 0) then err invalid_cursor else ok (to_string c)

-- The receiver is never nil here: it is the cursor before the call, and the result the one after
-- it with the error.
unfoldable pub unmarshal_text : Cursor → Bytes → Cursor × Option Error
unmarshal_text c text = elim (parse_cursor text) [
  | ok parsed ↦ (parsed, none)
  | err e ↦ (c, some e)
]

unfoldable pub distance : Cursor → Cursor → Option ℕ
distance c to =
    if (c.generation == 0) || (to.generation == 0) || not (c.generation == to.generation)
    then none
    else if ltb to.offset c.offset
    then none
    else some (to.offset - c.offset)

-- What the program hands out: the zero cursor, or a generation from 1 on with an offset that
-- fits a signed 64-bit file position.
abbrev pub IsCursor : Cursor → Type 0
IsCursor c =
    (c.generation ≤ max_uint64) × (c.offset ≤ max_int64) × (c.generation ≡ 0 → c.offset ≡ 0)
