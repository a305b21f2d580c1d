-- ===== src/Query/Color.antt =====
-- query.go: the colors that a callback supplies, and the replies of Feed.
use ghostline.Prelude.{
  ℕ, ◌+◌, ◌/◌, ◌%◌, Bool, not, ◌&&◌, List, [], ◌∷◌, ◌++◌, Bytes, length, take, drop, Option, none,
  some, ltb, leb, ◌==◌, if◌then◌else◌,
}
use ghostline.Text.Decimal.{format_uint}
use ghostline.Text.Search.{has_prefix}
use ghostline.Text.Split.{split}
use ghostline.Text.Space.{trim_space, to_lower, all_hex}
use ghostline.Query.{QueryResponder, PendingQueryReply, feed_locked, escape}

-- string(b) for a byte, which is the text of a code point.
abbrev utf8 : ℕ → Bytes
utf8 c = if ltb c 128 then c ∷ [] else (192 + c / 64) ∷ (128 + c % 64) ∷ []

-- strings.Repeat(string(value[i]), 2), in front of what follows.
abbrev pub twice : ℕ → Bytes → Bytes
twice c rest = utf8 c ++ utf8 c ++ rest

abbrev pub rgb : Bytes
rgb = b'r' ∷ b'g' ∷ b'b' ∷ b':' ∷ []

-- One to four digits; four digits always fit the 16 bits of ParseUint.
abbrev pub is_component : Bytes → Bool
is_component text = leb 1 (length text) && leb (length text) 4 && all_hex text

abbrev pub join_slash : Bytes → Bytes → Bytes → Bytes
join_slash a b c = a ++ (b'/' ∷ (b ++ (b'/' ∷ c)))

unfoldable pub rgb_components : List Bytes → Option Bytes
rgb_components [] = none
rgb_components (a ∷ []) = none
rgb_components (a ∷ b ∷ []) = none
rgb_components (a ∷ b ∷ c ∷ []) =
    if is_component a && is_component b && is_component c
    then some (rgb ++ to_lower (join_slash a b c))
    else none
rgb_components (a ∷ b ∷ c ∷ d ∷ rest) = none

unfoldable pub expand_short : Bytes → Bytes
expand_short [] = []
expand_short (a ∷ []) = a ∷ []
expand_short (a ∷ b ∷ []) = a ∷ b ∷ []
expand_short (a ∷ b ∷ c ∷ []) = twice a (twice b (twice c []))
expand_short (a ∷ b ∷ c ∷ d ∷ rest) = a ∷ b ∷ c ∷ d ∷ rest

unfoldable pub hex_color : Bytes → Option Bytes
hex_color value =
    let red = take 2 value in
    let green = take 2 (drop 2 value) in
    let blue = drop 4 value in
    if (length value == 6) && all_hex red && all_hex green && all_hex blue
    then some (rgb ++ to_lower (join_slash (red ++ red) (green ++ green) (blue ++ blue)))
    else none

-- strings.TrimPrefix(value, "#")
abbrev pub trim_hash : Bytes → Bytes
trim_hash [] = []
trim_hash (c ∷ text) = if c == b'#' then text else c ∷ text

unfoldable pub format_osc_color : Bytes → Option Bytes
unfolding rgb_components expand_short hex_color
format_osc_color color =
    let value = trim_space color in
    if has_prefix (to_lower value) rgb
    then rgb_components (split b'/' (drop 4 value))
    else hex_color (expand_short (trim_hash value))

-- "\x1b]%d;%s\x1b\\"
abbrev pub color_report : ℕ → Bytes → Bytes
color_report kind value =
    escape ∷ b']' ∷ (format_uint kind ++ (b';' ∷ (value ++ (escape ∷ b'\\' ∷ []))))

unfoldable pub answer : Option (ℕ → Option Bytes) → PendingQueryReply → Option Bytes
unfolding format_osc_color
answer callback reply = if not (length reply.fixed == 0) then some reply.fixed else elim callback [
  | none ↦ none
  | some f ↦ if reply.color_kind == 0 then none else elim (f reply.color_kind) [
    | none ↦ none
    | some color ↦ elim (format_osc_color color) [
      | none ↦ none
      | some value ↦ some (color_report reply.color_kind value)
    ]
  ]
]

abbrev add_answer : Option Bytes → List Bytes → List Bytes
add_answer none replies = replies
add_answer (some reply) replies = reply ∷ replies

unfoldable pub answer_all : Option (ℕ → Option Bytes) → List PendingQueryReply → List Bytes
unfolding answer
answer_all callback [] = []
answer_all callback (reply ∷ pending) =
    add_answer (answer callback reply) (answer_all callback pending)

-- Feed: the callback runs outside the lock, on what the parse has collected.
unfoldable pub feed : QueryResponder → Bytes → Option (QueryResponder × List Bytes)
unfolding answer_all
feed r data' = elim (feed_locked r data') [
  | none ↦ none
  | some (next, pending) ↦ some (next, answer_all r.color_query pending)
]
