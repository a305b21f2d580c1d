-- ===== src/Query.antt =====
-- query.go: the responder that answers terminal queries while no client is attached. A call
-- holds the responder's lock while it parses, so the state passes from call to call.
use ghostline.Prelude.{
  ℕ, zero, suc, ◌+◌, ◌-◌, ◌*◌, ◌%◌, ◌^◌, Bool, true, false, not, ◌&&◌, ◌||◌, List, [], ◌∷◌, ◌++◌,
  Bytes, length, take, drop, get_elem?, Option, none, some, ltb, leb, ◌==◌, if◌then◌else◌, bytes_eq,
}
use ghostline.Prelude.Int.{ℤ, pos, negsuc, nonpositive}
use ghostline.Text.Decimal.{format_uint}
use ghostline.Text.Search.{index_byte}
mod Color
mod Ends
mod Passes
mod Feed
mod Buffer
mod Lost
mod Examples

abbrev pub escape : ℕ
escape = 27

abbrev pub color_query_foreground : ℕ
color_query_foreground = 10

abbrev pub color_query_background : ℕ
color_query_background = 11

-- `rows` and `cols` are positive Go `int`s. A callback gives its color where it returns true.
pub record QueryResponder : Type 0 where
  pub pending : Bytes
  pub rows : ℕ
  pub cols : ℕ
  pub color_query : Option (ℕ → Option Bytes)

abbrev pub new_query_responder : Option (ℕ → Option Bytes) → QueryResponder
new_query_responder callback = record {
  pending = [];
  rows = 36;
  cols = 120;
  color_query = callback;
}

pub record PendingQueryReply : Type 0 where
  pub fixed : Bytes
  pub color_kind : ℕ

abbrev magnitude : ℤ → ℕ
magnitude (pos n) = n
magnitude (negsuc n) = suc n

unfoldable pub resize : QueryResponder → ℤ → ℤ → QueryResponder
resize r columns rows = if nonpositive columns || nonpositive rows then r else record {
  pending = r.pending;
  rows = magnitude rows;
  cols = magnitude columns;
  color_query = r.color_query;
}

-- The results `(i, true)`, `(i, false)` and `(-1, false)` of csiFinal and oscEnd.
pub data SequenceEnd : Type 0 where
  complete broken : ℕ → SequenceEnd
  partial : SequenceEnd

-- The bytes are those from the index `i` on.
unfoldable pub csi_final : Bytes → ℕ → SequenceEnd
csi_final [] i = partial
csi_final (c ∷ body) i =
    let rest = csi_final body (suc i) in
    if leb 64 c && leb c 126 then complete i else if ltb c 32 || (c == 127) then broken i else rest

unfoldable pub osc_end : Bytes → ℕ → SequenceEnd
osc_end [] i = partial
osc_end (c ∷ body) i =
    let rest = osc_end body (suc i) in
    if c == 7
    then complete i
    else if c == escape
    then elim (get_elem? body 0) [
      | none ↦ broken i
      | some d ↦ if d == b'\\' then complete i else broken i
    ]
    else if ltb c 32
    then broken i
    else rest

-- fmt's %d of a product of `int`s, which wraps at 64 bits.
unfoldable pub format_int : ℕ → Bytes
format_int n =
    let wrapped = n % 2 ^ 64 in
    if ltb wrapped (2 ^ 63) then format_uint wrapped else b'-' ∷ format_uint (2 ^ 64 - wrapped)

-- "\x1b[" kind ";" first ";" second "t"
abbrev pub window_report : ℕ → ℕ → ℕ → Bytes
window_report kind first second =
    escape ∷ b'[' ∷ kind ∷ b';' ∷ (format_int first ++ (b';' ∷ (format_int second ++ (b't' ∷ []))))

abbrev pub opt_eq : Option ℕ → ℕ → Bool
opt_eq none c = false
opt_eq (some d) c = d == c

unfoldable pub csi_reply : QueryResponder → Bytes → Bytes
unfolding format_int
csi_reply r sequence =
    let params = take (length sequence - 1) sequence in
    elim (get_elem? sequence (length sequence - 1)) [
      | none ↦ []
      | some final ↦
          if final == b'c'
          then if opt_eq (get_elem? params 0) b'>'
            then escape ∷ b'[' ∷ b'>' ∷ b'0' ∷ b';' ∷ b'0' ∷ b';' ∷ b'0' ∷ b'c' ∷ []
            else escape ∷ b'[' ∷ b'?' ∷ b'6' ∷ b'2' ∷ b';' ∷ b'c' ∷ []
          else if final == b'n'
          then if bytes_eq params (b'5' ∷ [])
            then escape ∷ b'[' ∷ b'0' ∷ b'n' ∷ []
            else if bytes_eq params (b'6' ∷ [])
            then escape ∷ b'[' ∷ b'1' ∷ b';' ∷ b'1' ∷ b'R' ∷ []
            else []
          else if final == b'u'
          then if bytes_eq params (b'?' ∷ []) then escape ∷ b'[' ∷ b'?' ∷ b'u' ∷ [] else []
          else if final == b'p'
          then if leb 2 (length params)
              && opt_eq (get_elem? params 0) b'?'
              && opt_eq (get_elem? params (length params - 1)) b'$'
            then escape
              ∷ b'['
              ∷ b'?'
              ∷ (take (length params - 2) (drop 1 params) ++ (b';' ∷ b'1' ∷ b'$' ∷ b'y' ∷ []))
            else []
          else if final == b't'
          then if bytes_eq params (b'1' ∷ b'4' ∷ [])
            then window_report b'4' r.rows r.cols
            else if bytes_eq params (b'1' ∷ b'6' ∷ [])
            then window_report b'4' (r.rows * 24) (r.cols * 8)
            else if bytes_eq params (b'1' ∷ b'8' ∷ [])
            then window_report b'8' r.rows r.cols
            else []
          else []
    ]

unfoldable pub osc_color_query : Bytes → Option ℕ
osc_color_query sequence =
    if bytes_eq sequence (b'1' ∷ b'0' ∷ b';' ∷ b'?' ∷ [])
    then some color_query_foreground
    else if bytes_eq sequence (b'1' ∷ b'1' ∷ b';' ∷ b'?' ∷ [])
    then some color_query_background
    else none

-- One pass of feedLocked's loop: it returns with what stays buffered, or goes on, with a reply
-- or without one.
pub data Pass : Type 0 where
  stop : Bytes → Pass
  again : Bytes → Option PendingQueryReply → Pass

abbrev pub fixed_reply : Bytes → Option PendingQueryReply
fixed_reply [] = none
fixed_reply (c ∷ reply) = some (record { fixed = c ∷ reply; color_kind = 0 })

abbrev pub color_reply : Option ℕ → Option PendingQueryReply
color_reply none = none
color_reply (some kind) = some (record { fixed = []; color_kind = kind })

unfoldable pub feed_csi : QueryResponder → Bytes → Pass
unfolding csi_final
feed_csi r pending = elim (csi_final (drop 2 pending) 0) [
  | complete final ↦
      again (drop (2 + final + 1) pending)
        (fixed_reply (csi_reply r (take (final + 1) (drop 2 pending))))
  | broken final ↦ again (drop 1 pending) none
  | partial ↦ stop (if ltb 256 (length pending) then [] else pending)
]

unfoldable pub feed_osc : Bytes → Pass
unfolding osc_end osc_color_query
feed_osc pending = elim (osc_end (drop 2 pending) 0) [
  | complete end ↦
      again (drop (2 + end) pending) (color_reply (osc_color_query (take end (drop 2 pending))))
  | broken end ↦ again (drop 1 pending) none
  | partial ↦ stop (if ltb 4096 (length pending) then [] else pending)
]

-- `pending` begins with an escape.
unfoldable pub feed_escape : QueryResponder → Bytes → Pass
unfolding feed_csi feed_osc
feed_escape r pending = elim (get_elem? pending 1) [
  | none ↦ stop pending
  | some c ↦
      if c == b'['
      then feed_csi r pending
      else if c == b']'
      then feed_osc pending
      else again (drop 1 pending) none
]

unfoldable pub feed_pass : QueryResponder → Bytes → Pass
unfolding feed_escape
feed_pass r pending = elim (index_byte pending escape) [
  | none ↦ stop []
  | some i ↦ feed_escape r (drop i pending)
]

abbrev pub collect : Option PendingQueryReply → List PendingQueryReply → List PendingQueryReply
collect none replies = replies
collect (some reply) replies = reply ∷ replies

-- The loop, on fuel: what stays buffered and the replies, or `none` if the fuel runs out.
unfoldable pub feed_loop : ℕ → QueryResponder → Bytes → Option (Bytes × List PendingQueryReply)
unfolding feed_pass
feed_loop zero r pending = none
feed_loop (suc fuel) r pending = elim (feed_pass r pending) [
  | stop left ↦ some (left, [])
  | again left reply ↦ elim (feed_loop fuel r left) [
    | none ↦ none
    | some (kept, replies) ↦ some (kept, collect reply replies)
  ]
]

abbrev pub with_pending : QueryResponder → Bytes → QueryResponder
with_pending r left = record {
  pending = left;
  rows = r.rows;
  cols = r.cols;
  color_query = r.color_query;
}

unfoldable pub feed_locked :
    QueryResponder → Bytes → Option (QueryResponder × List PendingQueryReply)
unfolding feed_loop
feed_locked r data' =
    let pending = r.pending ++ data' in
    elim (feed_loop (suc (length pending)) r pending) [
      | none ↦ none
      | some (left, replies) ↦ some (with_pending r left, replies)
    ]
