-- ===== src/Semantic/Find.antt =====
-- The scan for markers ends, and what it reports lies in the data, in order.
use ghostline.Prelude.{
  ℕ, zero, suc, ◌+◌, ◌-◌, ◌≤◌, ◌<◌, ◌≡◌, refl, Bool, [], ◌∷◌, arith, Bytes, length, List, Option,
  none, some, leb, ◌==◌, if◌then◌else◌, Bool-cases, Option-cases, inl, inr, get_elem?, drop,
  length-drop, get_elem?-lt, subst, sym,
}
use ghostline.Text.Search.{index, index-le}
use ghostline.Semantic.{
  Span, scan, finish, parse_osc133_at, visit, find_from, find_osc133, report, osc133_suffix,
  osc133_prefix,
}

finish_end : (data' : Bytes) (kind body i end : ℕ) → (finish data' kind body i end).end ≡ end
unfolding finish
finish_end data' kind body i end = elim (Bool-cases (kind == b'D')) [
  | inl e ↦ rw e refl
  | inr n ↦ rw n refl
]

-- A marker ends behind its kind and in the data; `rest` is what stands from `i` on.
scan_end :
    (data' : Bytes) (kind body i : ℕ) (rest : Bytes)
    → i + length rest ≡ length data'
    → (i ≤ (scan data' kind body i rest).0.end)
      × ((scan data' kind body i rest).0.end ≤ length data')
unfolding scan
scan_end data' kind body i [] h = (omega arith, omega arith)
scan_end data' kind body i (c ∷ []) h =
    let next = scan_end data' kind body (suc i) [] (omega arith) in
    ground (arith, next.0, next.1, finish_end data' kind body i (i + 1))
scan_end data' kind body i (c ∷ d ∷ rest) h =
    let next = scan_end data' kind body (suc i) (d ∷ rest) (omega arith) in
    ground (
      arith,
      next.0,
      next.1,
      finish_end data' kind body i (i + 1),
      finish_end data' kind body i (i + 2),
    )

parse_osc133_at_end :
    (data' : Bytes) (start : ℕ)
    → start + 5 ≤ length data'
    → (start < (parse_osc133_at data' start).0.end)
      × ((parse_osc133_at data' start).0.end ≤ length data')
unfolding parse_osc133_at
parse_osc133_at_end data' start h =
    let body = start + length osc133_prefix in
    elim (Option-cases (get_elem? data' body)) [
      | inl e ↦ ground (arith, e)
      | inr (kind, e) ↦
          let end =
            scan_end data' kind body (suc body) (drop (suc body) data')
              (omega (arith, length-drop (suc body) data', get_elem?-lt data' body e)) in
          ground (arith, e, end.0, end.1)
    ]

-- What a step of the loop does: it moves on, and what it reports ends where it goes on.
abbrev Visited : ℕ → ℕ → ℕ × (Option Span) → Type 0
Visited limit position (next, none) = position < next
Visited limit position (next, some span) = (span.end ≡ next) × (position < next) × (next ≤ limit)

go_on :
    (limit position i : ℕ) (span : Span) (ok : Bool)
    → position ≤ i
    → span.end ≤ limit
    → Visited limit position (
        if leb span.end position
        then (i + 5, none)
        else (span.end, (if ok then some span else none)))
go_on limit position i span ok h k = elim (Bool-cases (leb span.end position)) [
  | inl stuck ↦ rw stuck (omega arith)
  | inr moves ↦
      rw moves (elim (Bool-cases ok) [
        | inl e ↦ rw e (refl, ground arith, k)
        | inr n ↦ rw n (ground arith)
      ])
]

visit-Visited :
    (data' : Bytes) (position i : ℕ)
    → position ≤ i
    → i + 5 ≤ length data'
    → Visited (length data') position (visit data' position i)
unfolding visit
visit-Visited data' position i h k = elim (Bool-cases (i == 0)) [
  | inl first ↦ rw (first, visit) (omega arith)
  | inr later ↦ elim (Option-cases (get_elem? data' (i - 1))) [
    | inl e ↦ rw (later, e, visit) (omega arith)
    | inr (c, e) ↦ elim (Bool-cases (c == 27)) [
      | inl escape ↦
          rw (later, e, escape, visit)
            (go_on (length data') position i (parse_osc133_at data' (i - 1)).0
              (parse_osc133_at data' (i - 1)).1 h
              (parse_osc133_at_end data' (i - 1) (ground arith)).1)
      | inr other ↦ rw (later, e, other, visit) (omega arith)
    ]
  ]
]

-- The ends of the markers go up from a position, and stay within a limit.
abbrev pub Ascending : ℕ → ℕ → List Span → Type 0
Ascending limit position [] = Unit {0}
Ascending limit position (span ∷ spans) =
    (position < span.end) × (span.end ≤ limit) × Ascending limit span.end spans

Ascending-le :
    (limit p q : ℕ) (spans : List Span) → p ≤ q → Ascending limit q spans → Ascending limit p spans
Ascending-le limit p q [] h a = tt
Ascending-le limit p q (span ∷ spans) h a = (omega (arith, a.0), a.1, a.2)

Ascending-report :
    (limit position : ℕ) (visited : ℕ × (Option Span)) (spans : List Span)
    → Visited limit position visited
    → Ascending limit visited.0 spans
    → Ascending limit position (report visited.1 spans)
Ascending-report limit position (next, none) spans v a =
    Ascending-le limit position next spans (omega (arith, v)) a
Ascending-report limit position (next, some span) spans v a = (
  omega (arith, v.0, v.1),
  omega (arith, v.0, v.2),
  subst (λ end. Ascending limit end spans) (sym v.0) a,
)

Visited-lt :
    (limit position : ℕ) (visited : ℕ × (Option Span))
    → Visited limit position visited
    → position < visited.0
Visited-lt limit position (next, none) v = v
Visited-lt limit position (next, some span) v = v.1

find_from_ends :
    (fuel : ℕ) (data' : Bytes) (position : ℕ)
    → length data' - position < fuel
    → (spans : List Span) × (find_from fuel data' position ≡ some spans)
      × Ascending (length data') position spans
unfolding find_from
find_from_ends zero data' position h = absurd (omega arith)
find_from_ends (suc fuel) data' position h = elim (Bool-cases (leb (length data') position)) [
  | inl e ↦ rw e ([], refl, tt)
  | inr n ↦ rw n (elim (Option-cases (index (drop position data') osc133_suffix)) [
    | inl e ↦ rw e ([], refl, tt)
    | inr (i, e) ↦
        let v = visit-Visited data' position (i + position) (omega arith) (
          ground
            (arith, index-le (drop position data') osc133_suffix e, length-drop position data')) in
        let (spans, f, a) = find_from_ends fuel data' (visit data' position (i + position)).0 (
          ground
            (arith, Visited-lt (length data') position (visit data' position (i + position)) v)) in
        rw (e, f)
          (
            _,
            refl,
            Ascending-report (length data') position (visit data' position (i + position)) spans v
                a,
          )
  ])
]

-- The scan of every chunk ends, and the markers that it reports end at increasing positions
-- within the chunk, none at its start.
pub find_osc133_total :
    (data' : Bytes)
    → (spans : List Span) × (find_osc133 data' ≡ some spans) × Ascending (length data') 0 spans
unfolding find_osc133
find_osc133_total data' = elim (Option-cases (index data' osc133_suffix)) [
  | inl e ↦ rw (e, find_osc133) ([], refl, tt)
  | inr (i, e) ↦ rw (e, find_osc133) (find_from_ends (suc (length data')) data' 0 (omega arith))
]
