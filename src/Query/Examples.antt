-- ===== src/Query/Examples.antt =====
-- query.go: runs of the responder.
use ghostline.Prelude.{
  ℕ, ◌≡◌, refl, List, [], ◌∷◌, ◌++◌, Bytes, Option, none, some, arith, ◌==◌, if◌then◌else◌,
}
use ghostline.Text.Decimal.{format_uint}
use ghostline.Text.Search.{index_byte, has_prefix}
use ghostline.Text.Space.{trim_space, strip, strip_all}
use ghostline.Query.{
  QueryResponder, new_query_responder, with_pending, feed_locked, feed_loop, feed_pass, feed_escape,
  feed_csi, feed_osc, csi_final, osc_end, csi_reply, osc_color_query, escape,
  color_query_foreground,
}
use ghostline.Query.Color.{
  feed, answer, answer_all, format_osc_color, hex_color, expand_short, color_report,
}
use ghostline.Query.Feed.{feed_twice, feed-append}
use ghostline.Query.Buffer.{IsBuffer, feed-IsBuffer}
use ghostline.Query.Lost.{osc_open, feed_lost}

-- The theme that a client gives: white on black, as "#fff" and no background.
abbrev theme : ℕ → Option Bytes
theme kind = if kind == color_query_foreground then some (b'#' ∷ b'f' ∷ b'f' ∷ b'f' ∷ []) else none

abbrev fresh : QueryResponder
fresh = new_query_responder (some theme)

-- "\x1b[" and "6n": the cursor position request, in two chunks.
abbrev half : Bytes
half = b'x' ∷ escape ∷ b'[' ∷ []

abbrev other_half : Bytes
other_half = b'6' ∷ b'n' ∷ []

feed-append_example : feed fresh (half ++ other_half) ≡ feed_twice fresh half other_half
feed-append_example = feed-append fresh half other_half (omega arith) refl

feed-IsBuffer_example :
    (kept : Bytes) × (replies : List Bytes) × (feed fresh half
      ≡ some (with_pending fresh kept, replies))
    × IsBuffer kept
feed-IsBuffer_example = feed-IsBuffer fresh half

-- "10;?", the request for the text color.
abbrev text_color : Bytes
text_color = b'1' ∷ b'0' ∷ b';' ∷ b'?' ∷ []

feed_lost_example : feed_twice fresh (osc_open text_color) (b'\\' ∷ []) ≡ some (fresh, [])
feed_lost_example =
    feed_lost fresh text_color (omega arith, (omega arith, (omega arith, (omega arith, tt))))

-- In one chunk, the same request is answered.
unsplit_color :
    feed fresh (osc_open text_color ++ (b'\\' ∷ []))
    ≡ some (
      fresh,
      color_report color_query_foreground (
            b'r' ∷ b'g' ∷ b'b' ∷ b':' ∷ b'f' ∷ b'f' ∷ b'f' ∷ b'f' ∷ b'/' ∷ b'f' ∷ b'f' ∷ b'f' ∷ b'f'
            ∷ b'/' ∷ b'f' ∷ b'f' ∷ b'f' ∷ b'f' ∷ [])
          ∷ [],
    )
unfolding feed feed_locked feed_loop feed_pass feed_escape index_byte feed_osc osc_end
    osc_color_query answer_all answer format_osc_color trim_space strip_all strip has_prefix
    hex_color expand_short format_uint
unsplit_color = refl

cursor_position :
    feed_twice fresh half other_half
    ≡ some (fresh, (escape ∷ b'[' ∷ b'1' ∷ b';' ∷ b'1' ∷ b'R' ∷ []) ∷ [])
unfolding feed feed_locked feed_loop feed_pass feed_escape index_byte feed_csi csi_final csi_reply
    answer_all answer
cursor_position = refl
