-- ===== src/Semantic.antt =====
-- semantic.go: the scan of the output for OSC 133 markers, which gives the exit status of a
-- command.
use ghostline.Prelude.{
  ℕ, zero, suc, ◌+◌, ◌-◌, ◌*◌, ◌≤◌, ◌<◌, ◌≡◌, refl, Bool, true, false, not, ◌&&◌, ◌||◌, List, [],
  ◌∷◌, arith, Bytes, length, take, drop, get_elem?, Option, none, some, map, ltb, leb, ◌==◌,
  if◌then◌else◌,
}
use ghostline.Text.Decimal.{is_digit}
use ghostline.Text.Search.{index}
mod Exit
mod Find
mod Marker
mod Examples

-- "\x1b]133;" and "]133;"
abbrev pub osc133_suffix : Bytes
osc133_suffix = b']' ∷ b'1' ∷ b'3' ∷ b'3' ∷ b';' ∷ []

abbrev pub osc133_prefix : Bytes
osc133_prefix = 27 ∷ osc133_suffix

abbrev pub max_semantic_exit_digits : ℕ
max_semantic_exit_digits = 6

pub record Span : Type 0 where
  pub kind : ℕ
  pub exit_code : ℕ
  pub has_exit : Bool
  pub end : ℕ

-- `value` and `digits` are the loop's; six digits fit an `int`.
unfoldable pub exit_digits : ℕ → ℕ → Bytes → ℕ × Bool
exit_digits value digits [] = if digits == 0 then (0, false) else (value, true)
exit_digits value digits (digit ∷ rest) =
    let next = exit_digits (value * 10 + (digit - b'0')) (suc digits) rest in
    if digit == b';'
    then if digits == 0 then (0, false) else (value, true)
    else if not (is_digit digit)
    then (0, false)
    else if leb max_semantic_exit_digits digits
    then (0, false)
    else next

unfoldable pub parse_osc133_exit : Bytes → ℕ × Bool
unfolding exit_digits
parse_osc133_exit [] = (0, false)
parse_osc133_exit (c ∷ payload) = if c == b';' then exit_digits 0 0 payload else (0, false)

-- The span of a complete marker: the payload stands between `body` and `i`.
unfoldable pub finish : Bytes → ℕ → ℕ → ℕ → ℕ → Span
unfolding parse_osc133_exit
finish data' kind body i end =
    let exit = parse_osc133_exit (take (i - suc body) (drop (suc body) data')) in
    if kind == b'D'
    then record { kind = kind; exit_code = exit.0; has_exit = exit.1; end = end }
    else record { kind = kind; exit_code = 0; has_exit = false; end = end }

-- The loop of parseOSC133At over what is left of the data from `i` on.
unfoldable pub scan : Bytes → ℕ → ℕ → ℕ → Bytes → Span × Bool
unfolding finish
scan data' kind body i [] =
    (record { kind = kind; exit_code = 0; has_exit = false; end = length data' }, false)
scan data' kind body i (c ∷ rest) =
    let next = scan data' kind body (suc i) rest in
    if c == 7
    then (finish data' kind body i (i + 1), true)
    else if c == 27
    then elim (get_elem? rest 0) [
      | none ↦ next
      | some d ↦ if d == b'\\' then (finish data' kind body i (i + 2), true) else next
    ]
    else next

unfoldable pub parse_osc133_at : Bytes → ℕ → Span × Bool
unfolding scan
parse_osc133_at data' start =
    let body = start + length osc133_prefix in
    elim (get_elem? data' body) [
      | none ↦ (record { kind = 0; exit_code = 0; has_exit = false; end = length data' }, false)
      | some kind ↦ scan data' kind body (suc body) (drop (suc body) data')
    ]

-- Where the loop goes on after it has found the suffix at `i`, and what it reports there.
unfoldable pub visit : Bytes → ℕ → ℕ → ℕ × (Option Span)
unfolding parse_osc133_at
visit data' position i =
    let (span, ok) = parse_osc133_at data' (i - 1) in
    if i == 0 then (i + 1, none) else elim (get_elem? data' (i - 1)) [
      | none ↦ (i + 1, none)
      | some c ↦
          if not (c == 27)
          then (i + 1, none)
          else if leb span.end position
          then (i + length osc133_suffix, none)
          else (span.end, (if ok then some span else none))
    ]

abbrev pub report : Option Span → List Span → List Span
report none spans = spans
report (some span) spans = span ∷ spans

-- The loop of findOSC133, on fuel; `none` if the fuel runs out.
unfoldable pub find_from : ℕ → Bytes → ℕ → Option (List Span)
unfolding visit
find_from zero data' position = none
find_from (suc fuel) data' position =
    if leb (length data') position
    then some []
    else elim (index (drop position data') osc133_suffix) [
      | none ↦ some []
      | some i ↦
          let (next, found) = visit data' position (i + position) in
          elim (find_from fuel data' next) [ none ↦ none | some spans ↦ some (report found spans) ]
    ]

unfoldable pub find_osc133 : Bytes → Option (List Span)
unfolding find_from
find_osc133 data' = elim (index data' osc133_suffix) [
  | none ↦ some []
  | some _ ↦ find_from (suc (length data')) data' 0
]
