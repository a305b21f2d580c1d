-- ===== src/Output/Cursor/Examples.antt =====
-- Tests and witnesses for cursors.
use ghostline.Prelude.{◌≡◌, refl, none, [], ◌∷◌, arith, Bytes}
use ghostline.Errors.{invalid_cursor, ok, err}
use ghostline.Text.Decimal.{format_uint, parse_uint}
use ghostline.Text.Split.{split}
use ghostline.Output.Cursor.{
  Cursor, IsCursor, zero_cursor, parse_cursor, to_string, marshal_text, unmarshal_text,
}
use ghostline.Output.Cursor.RoundTrip.{parse-to_string_stable, unmarshal-marshal}

-- "v1:02:7"
abbrev padded_text : Bytes
padded_text = b'v' ∷ b'1' ∷ b':' ∷ b'0' ∷ b'2' ∷ b':' ∷ b'7' ∷ []

abbrev second : Cursor
second = record { generation = 2; offset = 7 }

-- A leading zero is accepted, and is not printed.
parse_padded : parse_cursor padded_text ≡ ok second
unfolding parse_cursor parse_uint split
parse_padded = refl

print_second : to_string second ≡ b'v' ∷ b'1' ∷ b':' ∷ b'2' ∷ b':' ∷ b'7' ∷ []
unfolding to_string format_uint
print_second = refl

-- "v1:0:7" is refused: generation 0 has no positions.
parse_zero_generation :
    parse_cursor (b'v' ∷ b'1' ∷ b':' ∷ b'0' ∷ b':' ∷ b'7' ∷ []) ≡ err invalid_cursor
unfolding parse_cursor parse_uint split
parse_zero_generation = refl

parse-to_string_stable_example : IsCursor second × (parse_cursor (to_string second) ≡ ok second)
parse-to_string_stable_example = parse-to_string_stable padded_text second parse_padded

unmarshal-marshal_test :
    (marshal_text second ≡ ok (to_string second))
    × (unmarshal_text zero_cursor (to_string second) ≡ (second, none))
unmarshal-marshal_test = unmarshal-marshal second zero_cursor (omega arith)
