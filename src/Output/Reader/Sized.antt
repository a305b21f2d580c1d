-- ===== src/Output/Reader/Sized.antt =====
-- Sized reads: the size that is reported with bytes is the one they were produced for.
use ghostline.Prelude.{
  ℕ, ◌-◌, ◌≤◌, ◌<◌, ◌≡◌, ◌⊎◌, inl, inr, refl, ap, sym, subst, true, ◌&&◌, not, Option, none, some,
  [], Bytes, ltb, leb, if◌then◌else◌, length, drop, min, arith, Bool-cases, Option-cases,
  length-take,
}
use ghostline.Prelude.Maps.{lookup}
use ghostline.Size.{Size, size_eq, size_eq_iff, zero_size}
use ghostline.Output.Cursor.Distance.{advance}
use ghostline.Output.Log.{Log, Segment}
use ghostline.Output.Marks.{Span, size_span}
use ghostline.Output.Marks.Order.{IsOrdered, size_at}
use ghostline.Output.Marks.Spans.{IsWithin, size_span-size_at}
use ghostline.Output.Reader.Stale.{gone_cases}
use ghostline.Output.Reader.{
  Reader, Env, ReadAnswer, Chunk, Step, returns, again, waits, stopped, fails_with, read_at,
  is_file, deliver, refresh, advance_to, cut_at, step_sized, step_open, step_segment, step, whole,
  fails,
}

-- A pass that hands out at most m bytes, all of them under the given size.
abbrev Within : ℕ → Size → Step → Type 0
Within m size (returns r' chunk) =
    (chunk.bytes ≡ []) ⊎ ((chunk.size ≡ size) × (length chunk.bytes ≤ m))
Within m size (again r') = Unit {0}
Within m size (waits r') = Unit {0}

read_at-length :
    (a : ReadAnswer) (file : Bytes) (n offset : ℕ) → length (read_at a file n offset).0 ≤ n
unfolding read_at
read_at-length whole file n offset = omega (arith, length-take n (drop offset file))
read_at-length (fails k e) file n offset = omega (arith, length-take (min k n) (drop offset file))

deliver-Within :
    (env : Env) (n end : ℕ) (size : Size) (r : Reader) (l : Log)
    → Within (end - r.cursor.offset) size (deliver env n end size r l)
unfolding deliver
deliver-Within env n end size r l =
    elim (Option-cases (if not (is_file r.file r.cursor.generation) then env.opened else none)) [
      | inr (e, q) ↦ rw (q, deliver) (inl refl)
      | inl q ↦
          rw (q, deliver)
            (inr (
              refl,
              omega (
                arith,
                read_at-length env.answer (l.files r.cursor.generation)
                    (min n (end - r.cursor.offset)) r.cursor.offset,
              ),
            ))
    ]

advance_to-Within :
    (env : Env) (n end : ℕ) (size : Size) (r : Reader) (l : Log)
    → Within (end - r.cursor.offset) size (advance_to env n end size r l)
unfolding advance_to
advance_to-Within env n end size r l = elim (Bool-cases (ltb r.cursor.offset end)) [
  | inl more ↦ rw (more, advance_to) (deliver-Within env n end size r l)
  | inr over ↦ elim (Bool-cases (r.complete && leb r.file_limit r.cursor.offset)) [
    | inl c ↦ rw (over, c, advance_to) tt
    | inr c ↦ elim (Bool-cases l.closed) [
      | inr o ↦ rw (over, c, o, advance_to) tt
      | inl d ↦ elim (Option-cases l.err) [
        | inl e ↦ rw (over, c, d, e, advance_to) (inl refl)
        | inr (x, e) ↦ rw (over, c, d, e, advance_to) (inl refl)
      ]
    ]
  ]
]

abbrev FitsSpan : ℕ → Option ℕ → Type 0
FitsSpan m none = Unit {0}
FitsSpan m (some n) = m ≤ n

-- Bytes come with the size of their span, stay in it, and follow only once the size was reported.
abbrev Attributed : Span → Size → Step → Type 0
Attributed s reported (returns r' chunk) =
    (chunk.bytes ≡ [])
    ⊎ ((chunk.size ≡ s.size)
        × FitsSpan (length chunk.bytes) s.span
        × ((s.size ≡ zero_size) ⊎ (s.size ≡ reported)))
Attributed s reported (again r') = Unit {0}
Attributed s reported (waits r') = Unit {0}

FitsSpan-cut_at :
    (offset limit m : ℕ) (span : Option ℕ) → m ≤ cut_at offset limit span - offset → FitsSpan m span
FitsSpan-cut_at offset limit m none h = tt
FitsSpan-cut_at offset limit m (some n) h = ground arith

Attributed-IsWithin :
    (s : Span) (reported : Size) (offset limit : ℕ) (t : Step)
    → ((s.size ≡ zero_size) ⊎ (s.size ≡ reported))
    → Within (cut_at offset limit s.span - offset) s.size t
    → Attributed s reported t
Attributed-IsWithin s reported offset limit (returns r' chunk) k (inl e) = inl e
Attributed-IsWithin s reported offset limit (returns r' chunk) k (inr (e, h)) =
    inr (e, FitsSpan-cut_at offset limit (length chunk.bytes) s.span h, k)
Attributed-IsWithin s reported offset limit (again r') k h = tt
Attributed-IsWithin s reported offset limit (waits r') k h = tt

step_sized-Attributed :
    (env : Env) (n : ℕ) (s : Span) (r : Reader) (l : Log)
    → Attributed s r.reported (step_sized env n s r l)
unfolding step_sized
step_sized-Attributed env n s r l =
    elim (Bool-cases (not (size_eq s.size zero_size) && not (size_eq s.size r.reported))) [
      | inl b ↦ rw (b, step_sized) (inl refl)
      | inr b ↦
          rw (b, step_sized)
            (Attributed-IsWithin s r.reported r.cursor.offset r.file_limit _
              (ground (arith, size_eq_iff s.size zero_size, size_eq_iff s.size r.reported))
              (advance_to-Within env n (cut_at r.cursor.offset r.file_limit s.span) s.size r l))
    ]

step_segment-Attributed :
    (env : Env) (n : ℕ) (segment : Option Segment) (r : Reader) (l : Log)
    → Attributed (size_span l.sizes r.cursor) r.reported (step_segment env n true segment r l)
unfolding step_segment step_open refresh
step_segment-Attributed env n (some s) r l =
    step_sized-Attributed env n (size_span l.sizes r.cursor) _ l
step_segment-Attributed env n none r l = elim (gone_cases env n true r l) [
  | inl (r', q) ↦ subst (Attributed (size_span l.sizes r.cursor) r.reported) (sym q) (inl refl)
  | inr (f, g, q) ↦
      subst (Attributed (size_span l.sizes r.cursor) r.reported) (sym q)
        (step_sized-Attributed env n (size_span l.sizes r.cursor) (record r { complete = true }) l)
]

step-Attributed :
    (env : Env) (n : ℕ) (r : Reader) (l : Log)
    → Attributed (size_span l.sizes r.cursor) r.reported (step env n true r l)
unfolding step
step-Attributed env n r l = elim (Option-cases (stopped env r)) [
  | inr (e, q) ↦
      subst (Attributed (size_span l.sizes r.cursor) r.reported) {x = returns r (fails_with e)}
        (ground arith) (inl refl)
  | inl q ↦
      subst (Attributed (size_span l.sizes r.cursor) r.reported)
        {x = step_segment env n true (lookup r.cursor.generation l.segments) r l} (ground arith)
        (step_segment-Attributed env n (lookup r.cursor.generation l.segments) r l)
]

IsWithin-FitsSpan : (k m : ℕ) (span : Option ℕ) → k < m → FitsSpan m span → IsWithin k span
IsWithin-FitsSpan k m none h f = tt
IsWithin-FitsSpan k m (some n) h f = omega arith

-- Where the size marks are in order, every byte that a sized pass hands out was produced for the
-- size that comes with it, and that size is unknown or was reported by an earlier call.
pub step-size_at :
    (env : Env) (n k : ℕ) (r r' : Reader) (l : Log) (chunk : Chunk)
    → IsOrdered l.sizes
    → step env n true r l ≡ returns r' chunk
    → k < length chunk.bytes
    → (size_at l.sizes (advance r.cursor k) ≡ chunk.size)
      × ((chunk.size ≡ zero_size) ⊎ (chunk.size ≡ r.reported))
step-size_at env n k r r' l chunk o e h =
    elim (subst (Attributed (size_span l.sizes r.cursor) r.reported) e
      (step-Attributed env n r l)) [
        | inl z ↦ absurd (omega (arith, ap length z))
        | inr (q, fit, known) ↦ rw q (
          size_span-size_at l.sizes r.cursor k o
              (IsWithin-FitsSpan k (length chunk.bytes) (size_span l.sizes r.cursor).span h fit),
          known,
        )
      ]
