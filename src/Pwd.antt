-- ===== src/Pwd.antt =====
-- pwd.go: the working directory that a program reports. What the operating system and the
-- tables of Unicode say is a parameter: the name of this machine, `strings.ToLower` and
-- `strings.EqualFold`.
use ghostline.Prelude.{
  ℕ, zero, suc, ◌+◌, ◌-◌, ◌*◌, Bool, true, false, not, ◌&&◌, ◌||◌, List, [], ◌∷◌, ◌++◌, Bytes,
  length, take, drop, Option, none, some, ltb, leb, ◌==◌, if◌then◌else◌, bytes_eq, is_some,
}
use ghostline.Text.Search.{has_prefix, index, index_byte}
use ghostline.Text.Space.{trim_space, reverse}
mod Decode
mod Report
mod Examples

unfoldable pub hex_value : ℕ → Option ℕ
hex_value value =
    if leb b'0' value && leb value b'9'
    then some (value - b'0')
    else if leb b'a' value && leb value b'f'
    then some (value - b'a' + 10)
    else if leb b'A' value && leb value b'F'
    then some (value - b'A' + 10)
    else none

abbrev pub onto : ℕ → Option Bytes → Option Bytes
onto c none = none
onto c (some text) = some (c ∷ text)

-- `high<<4 | low`, where both have four bits.
abbrev pub byte_of : Option ℕ → Option ℕ → Option ℕ
byte_of none low = none
byte_of (some high) none = none
byte_of (some high) (some low) = some (high * 16 + low)

-- The loop of percentDecode.
unfoldable pub decode_loop : Bytes → Option Bytes
unfolding hex_value
decode_loop [] = some []
decode_loop (c ∷ []) = if c == b'%' then none else some (c ∷ [])
decode_loop (c ∷ d ∷ []) = if c == b'%' then none else onto c (decode_loop (d ∷ []))
decode_loop (c ∷ h ∷ l ∷ rest) = elim (c == b'%') [
  | true ↦ elim (byte_of (hex_value h) (hex_value l)) [
    | none ↦ none
    | some byte ↦ onto byte (decode_loop rest)
  ]
  | false ↦ onto c (decode_loop (h ∷ l ∷ rest))
]

unfoldable pub percent_decode : Bytes → Option Bytes
unfolding decode_loop
percent_decode input =
    if not (is_some (index input (b'%' ∷ []))) then some input else decode_loop input

abbrev pub colon_slashes : Bytes
colon_slashes = b':' ∷ b'/' ∷ b'/' ∷ []

-- splitReportedScheme, without the scheme, which no caller reads.
unfoldable pub split_reported_scheme : Bytes → Option Bytes
split_reported_scheme value = elim (index value colon_slashes) [
  | none ↦ none
  | some i ↦ if i == 0 then none else some (drop (i + 3) value)
]

unfoldable pub trim_quotes_left : Bytes → Bytes
trim_quotes_left [] = []
trim_quotes_left (c ∷ text) = if c == b'"' then trim_quotes_left text else c ∷ text

-- strings.Trim(value, `"`)
unfoldable pub trim_quotes : Bytes → Bytes
unfolding trim_quotes_left
trim_quotes value = reverse (trim_quotes_left (reverse (trim_quotes_left value)))

unfoldable pub absolute_path : Bytes → Bytes
unfolding trim_quotes
absolute_path value =
    let path = trim_quotes value in if has_prefix path (b'/' ∷ []) then path else []

unfoldable pub short_hostname : Bytes → Bytes
short_hostname value = elim (index_byte value b'.') [
  | none ↦ value
  | some i ↦ if i == 0 then value else take i value
]

abbrev pub localhost : Bytes
localhost = b'l' ∷ b'o' ∷ b'c' ∷ b'a' ∷ b'l' ∷ b'h' ∷ b'o' ∷ b's' ∷ b't' ∷ []

module _ (to_lower : Bytes → Bytes) (equal_fold : Bytes → Bytes → Bool) where
  unfoldable pub is_local_host : Bytes → Bytes → Bool
  unfolding short_hostname
  is_local_host host local_name =
      if equal_fold host localhost
      then true
      else if length local_name == 0
      then false
      else if bytes_eq (to_lower host) (to_lower local_name)
      then true
      else bytes_eq (short_hostname (to_lower host)) (short_hostname (to_lower local_name))

  -- The path of a URI, decoded where it can be.
  unfoldable pub decoded_path : Bytes → Bytes
  unfolding percent_decode absolute_path
  decoded_path path = elim (percent_decode path) [
    | none ↦ absolute_path path
    | some decoded ↦ absolute_path decoded
  ]

  unfoldable pub host_path : Bytes → Bytes → Bytes
  unfolding decoded_path is_local_host
  host_path rest local_name =
      if has_prefix rest (b'/' ∷ []) then decoded_path rest else elim (index_byte rest b'/') [
        | none ↦ []
        | some slash ↦
            if not (length (take slash rest) == 0)
              && not (is_local_host (take slash rest) local_name)
            then []
            else decoded_path (drop slash rest)
      ]

  -- `hostname` is what os.Hostname returns, if it succeeds.
  unfoldable pub parse_reported_pwd : Option Bytes → Bytes → Bytes
  parse_reported_pwd hostname raw =
      let value = trim_space raw in
      if length value == 0 then [] else elim (split_reported_scheme value) [
        | none ↦ absolute_path value
        | some rest ↦ elim hostname [
          | none ↦ host_path rest []
          | some local_name ↦ host_path rest local_name
        ]
      ]
