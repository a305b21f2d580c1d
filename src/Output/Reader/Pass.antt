-- ===== src/Output/Reader/Pass.antt =====
-- What one pass of the read loop delivers, against the stream of bytes at the reader's cursor.
use ghostline.Prelude.{
  ℕ, ◌+◌, ◌-◌, ◌≤◌, ◌<◌, ◌≡◌, ◌⊎◌, inl, inr, refl, ap, sym, subst, ◌∙◌, Bool, true, false, ◌&&◌,
  not, Option, none, some, List, [], ◌∷◌, ◌++◌, Bytes, ltb, ◌==◌, if◌then◌else◌, length, drop, take,
  min, arith, Bool-cases, Option-cases, length-take,
}
use ghostline.Prelude.Maps.{lookup}
use ghostline.Errors.{Error, cursor_expired, eof}
use ghostline.Size.{Size, size_eq, zero_size}
use ghostline.Output.Cursor.{Cursor, max_int64, max_uint64}
use ghostline.Output.Log.{Log, Segment, SizeMark, active_segment, add64, start_of}
use ghostline.Output.Log.Invariant.{IsLog}
use ghostline.Output.Log.Stream.{contents, stream, IsPosition}
use ghostline.Output.Log.Resolve.{length-contents}
use ghostline.Output.Marks.{size_span}
use ghostline.Output.Cursor.Distance.{advance}
use ghostline.Output.Marks.Spans.{HasMark, size_span_end}
use ghostline.Output.Reader.{
  Reader, Env, ReadAnswer, whole, fails, Step, returns, again, waits, stopped, fails_with, read_at,
  read_error, is_file, deliver, refresh, advance_to, cut_at, step_sized, step_open, step_segment,
  step,
}
use ghostline.Output.Reader.Windows.{window-take, stream_of-window, stream_of-next, stream_of-end}

-- What a pass may do: hand out the front of the stream and move past it, or go on or wait where
-- nothing of the stream is passed over.
abbrev pub Delivers : Log → Reader → ℕ → Step → Type 0
Delivers l r n (returns r' chunk) =
    (stream l r.cursor ≡ chunk.bytes ++ stream l r'.cursor)
    × (length chunk.bytes ≤ n)
    × IsPosition l r'.cursor
Delivers l r n (again r') =
    (stream l r.cursor ≡ stream l r'.cursor)
    × IsPosition l r'.cursor
    × (r.cursor.generation < r'.cursor.generation)
    × (r'.file ≡ none)
Delivers l r n (waits r') = (stream l r.cursor ≡ []) × (r'.cursor ≡ r.cursor) × (l.closed ≡ false)

-- The bytes that a read finds in the file are those of the log.
file-contents :
    (l : Log) (g j offset : ℕ)
    → offset + j ≤ length (contents l g)
    → take j (drop offset (l.files g)) ≡ take j (drop offset (contents l g))
unfolding contents
file-contents l g j offset h = elim (Bool-cases (g == l.generation)) [
  | inl q ↦ rw q (
      sym (
        window-take j offset (active_segment l).size (l.files g)
          (omega (arith, length-take (active_segment l).size (l.files g), rw q at h))))
  | inr q ↦ rw q refl
]

read_at-window :
    (a : ReadAnswer) (file : Bytes) (n offset : ℕ)
    → (j : ℕ) × (j ≤ n) × ((read_at a file n offset).0 ≡ take j (drop offset file))
unfolding read_at
read_at-window whole file n offset = (n, omega arith, refl)
read_at-window (fails k e) file n offset = (min k n, omega arith, refl)

-- A read of at most n bytes that stays below `end`.
module _ (env : Env) (n end : ℕ) (size : Size) (r : Reader) (l : Log) (p : IsPosition l r.cursor)
    (fits : length (contents l r.cursor.generation) ≤ max_int64)
    (below : end ≤ length (contents l r.cursor.generation)) (more : r.cursor.offset < end) where
  got : Bytes × Option Error
  got =
      read_at env.answer (l.files r.cursor.generation) (min n (end - r.cursor.offset))
        r.cursor.offset

  got_window :
      (j : ℕ) × (j ≤ n)
      × (r.cursor.offset + j ≤ end)
      × (got.0 ≡ take j (drop r.cursor.offset (contents l r.cursor.generation)))
  unfolding got
  got_window =
      let (j, h, e) =
        read_at-window env.answer (l.files r.cursor.generation) (min n (end - r.cursor.offset))
          r.cursor.offset in
      (
        j,
        omega arith,
        omega arith,
        e ∙ file-contents l r.cursor.generation j r.cursor.offset (omega arith),
      )

  got_length :
      (length got.0 ≤ n)
      × (r.cursor.offset + length got.0 ≤ end)
      × (add64 r.cursor.offset (length got.0) ≡ r.cursor.offset + length got.0)
  got_length =
      let (j, h, k, e) = got_window in
      let m = length-take j (drop r.cursor.offset (contents l r.cursor.generation)) in
      let q : length got.0 ≤ j = omega (arith, ap length e, m) in
      (omega arith, omega arith, omega arith)

  got_stream :
      stream l r.cursor
      ≡ got.0 ++ stream l (record r.cursor { offset = r.cursor.offset + length got.0 })
  got_stream =
      let (j, h, k, e) = got_window in rw e (stream_of-window (contents l) l.generation r.cursor j)

  got_Delivers : Delivers l r n (
      returns
        (record r {
          file = some r.cursor.generation;
          cursor = record r.cursor { offset = add64 r.cursor.offset (length got.0) };
        })
        (record { bytes = got.0; size = size; error = read_error got.0 got.1 }))
  got_Delivers = let (a, b, c) = got_length in (rw c got_stream, a, (p.0, p.1, omega arith))

  deliver-Delivers : Delivers l r n (deliver env n end size r l)
  unfolding deliver got
  deliver-Delivers =
      elim (Option-cases (if not (is_file r.file r.cursor.generation) then env.opened else none)) [
        | inr (e, q) ↦ rw (q, deliver) (refl, omega arith, p)
        | inl q ↦ rw (q, deliver) got_Delivers
      ]

-- The reader knows how long its generation is, and whether it is the active one.
pub record Knows (r : Reader) (l : Log) : Type 0 where
  pub position : IsPosition l r.cursor
  pub fits : length (contents l r.cursor.generation) ≤ max_int64
  pub limit : r.file_limit ≡ length (contents l r.cursor.generation)
  pub completeness : r.complete ≡ ltb r.cursor.generation l.generation

module _ (env : Env) (n end : ℕ) (size : Size) (r : Reader) (l : Log) (v : IsLog l) (k : Knows r l)
    (below : end ≤ r.file_limit)
    (reach : r.file_limit ≤ r.cursor.offset ⊎ (r.cursor.offset < end)) where
  next_Delivers :
      r.cursor.generation < l.generation
      → r.file_limit ≤ r.cursor.offset
      → Delivers l r n
          (again (record r { file = none; cursor = start_of (add64 r.cursor.generation 1) }))
  next_Delivers h m =
      let e : add64 r.cursor.generation 1 ≡ r.cursor.generation + 1 = omega (arith, v.numbered) in
      rw e (
        stream_of-next (contents l) l.generation r.cursor h (omega (arith, k.limit)),
        (omega arith, omega arith, omega arith),
        omega arith,
        refl,
      )

  end_stream :
      r.cursor.generation ≡ l.generation → r.file_limit ≤ r.cursor.offset → stream l r.cursor ≡ []
  end_stream h m = stream_of-end (contents l) l.generation r.cursor h (omega (arith, k.limit))

  advance_to-Delivers : Delivers l r n (advance_to env n end size r l)
  unfolding advance_to
  advance_to-Delivers = elim (Bool-cases (ltb r.cursor.offset end)) [
    | inl more ↦ rw more (
        deliver-Delivers env n end size r l k.position k.fits (omega (arith, k.limit))
          (ground arith))
    | inr over ↦
        let past : r.file_limit ≤ r.cursor.offset = ground arith in
        elim (Bool-cases r.complete) [
          | inl c ↦
              subst (Delivers l r n)
                {x = again
                  (record r { file = none; cursor = start_of (add64 r.cursor.generation 1) })}
                (ground arith) (next_Delivers (ground (arith, k.completeness)) past)
          | inr c ↦
              let here : r.cursor.generation ≡ l.generation =
                ground (arith, k.completeness, k.position) in
              elim (Bool-cases l.closed) [
                | inl d ↦ elim (Option-cases l.err) [
                  | inl e ↦
                      subst (Delivers l r n) {x = returns r (fails_with eof)} (ground arith)
                        (refl, omega arith, k.position)
                  | inr (x, e) ↦
                      subst (Delivers l r n) {x = returns r (fails_with x)} (ground arith)
                        (refl, omega arith, k.position)
                ]
                | inr o ↦
                    subst (Delivers l r n) {x = waits r} (ground arith)
                      (end_stream here past, refl, o)
              ]
        ]
  ]

-- What a reader remembers of a segment that was removed must be its whole length: `limit` can be
-- stale, since it is renewed only while the segment is in the index.
pub record IsReader (r : Reader) (l : Log) : Type 0 where
  pub position : IsPosition l r.cursor
  pub fits : (g : ℕ) → length (contents l g) ≤ max_int64
  pub pinned :
      lookup r.cursor.generation l.segments ≡ none
      → is_file r.file r.cursor.generation ≡ true
      → r.file_limit ≡ length (contents l r.cursor.generation)

refresh-Knows :
    (s : Segment) (r : Reader) (l : Log)
    → IsLog l
    → IsReader r l
    → lookup r.cursor.generation l.segments ≡ some s
    → Knows (refresh (some s) l r) l
unfolding refresh
refresh-Knows s r l v k e = record {
  position = k.position;
  fits = k.fits r.cursor.generation;
  limit = sym (length-contents l r.cursor.generation s v e);
  completeness = refl;
}

-- The offsets of the marks are uint64 values.
abbrev pub MarksFit : List SizeMark → Type 0
MarksFit [] = Unit {0}
MarksFit (mark ∷ marks) = (mark.cursor.offset ≤ max_uint64) × MarksFit marks

HasMark-le :
    (c : Cursor) (marks : List SizeMark) → MarksFit marks → HasMark c marks → c.offset ≤ max_uint64
HasMark-le c [] f h = elim h [ ]
HasMark-le c (m ∷ marks) f (inl e) = subst (λ (d : Cursor). d.offset ≤ max_uint64) e f.0
HasMark-le c (m ∷ marks) f (inr h) = HasMark-le c marks f.1 h

cut_at_bounds :
    (l : Log) (c : Cursor) (limit : ℕ)
    → MarksFit l.sizes
    → (span : Option ℕ) → (size_span l.sizes c).span ≡ span
    → (cut_at c.offset limit span ≤ limit)
      × ((limit ≤ c.offset) ⊎ (c.offset < cut_at c.offset limit span))
cut_at_bounds l c limit f none e = (omega arith, ground arith)
cut_at_bounds l c limit f (some n) e =
    let (h, m) = size_span_end l.sizes c n e in
    let fit = HasMark-le (advance c n) l.sizes f m in ground arith

step_sized-Delivers :
    (env : Env) (n : ℕ) (r : Reader) (l : Log)
    → IsLog l
    → Knows r l
    → MarksFit l.sizes
    → Delivers l r n (step_sized env n (size_span l.sizes r.cursor) r l)
unfolding step_sized
step_sized-Delivers env n r l v k f =
    let s = size_span l.sizes r.cursor in
    let (below, reach) = cut_at_bounds l r.cursor r.file_limit f s.span refl in
    elim (Bool-cases (not (size_eq s.size zero_size) && not (size_eq s.size r.reported))) [
      | inl b ↦ rw (b, step_sized) (refl, omega arith, k.position)
      | inr b ↦
          rw (b, step_sized)
            (advance_to-Delivers env n (cut_at r.cursor.offset r.file_limit s.span) s.size r l v k
              below reach)
    ]

step_open-Delivers :
    (env : Env) (n : ℕ) (sized : Bool) (r : Reader) (l : Log)
    → IsLog l
    → Knows r l
    → MarksFit l.sizes
    → Delivers l r n (step_open env n sized r l)
unfolding step_open
step_open-Delivers env n false r l v k f =
    advance_to-Delivers env n r.file_limit zero_size r l v k (omega arith) (ground arith)
step_open-Delivers env n true r l v k f = step_sized-Delivers env n r l v k f

step_segment-Delivers :
    (env : Env) (n : ℕ) (sized : Bool) (r : Reader) (l : Log)
    → IsLog l
    → IsReader r l
    → MarksFit l.sizes
    → (segment : Option Segment) → lookup r.cursor.generation l.segments ≡ segment
    → Delivers l r n (step_segment env n sized segment r l)
unfolding step_segment refresh
step_segment-Delivers env n sized r l v k f (some s) e =
    step_open-Delivers env n sized _ l v (refresh-Knows s r l v k e) f
step_segment-Delivers env n sized r l v k f none e =
    elim (Bool-cases (is_file r.file r.cursor.generation)) [
      | inr b ↦
          subst (Delivers l r n) {x = returns r (fails_with cursor_expired)} (ground arith)
            (refl, omega arith, k.position)
      | inl b ↦
          let r' = record r { complete = ltb r.cursor.generation l.generation } in
          elim (Bool-cases (ltb r.cursor.generation l.generation)) [
            | inl c ↦ subst (Delivers l r n) {x = step_open env n sized r' l} (ground arith) (
                step_open-Delivers env n sized r' l v
                  (record {
                    position = k.position;
                    fits = k.fits r.cursor.generation;
                    limit = k.pinned e b;
                    completeness = refl;
                  })
                  f)
            | inr c ↦
                subst (Delivers l r n) {x = returns r' (fails_with cursor_expired)} (ground arith)
                  (refl, omega arith, k.position)
          ]
    ]

pub step-Delivers :
    (env : Env) (n : ℕ) (sized : Bool) (r : Reader) (l : Log)
    → IsLog l
    → IsReader r l
    → MarksFit l.sizes
    → Delivers l r n (step env n sized r l)
unfolding step
step-Delivers env n sized r l v k f = elim (Option-cases (stopped env r)) [
  | inr (e, q) ↦
      subst (Delivers l r n) {x = returns r (fails_with e)} (ground arith)
        (refl, omega arith, k.position)
  | inl q ↦
      subst (Delivers l r n)
        {x = step_segment env n sized (lookup r.cursor.generation l.segments) r l} (ground arith)
        (step_segment-Delivers env n sized r l v k f (lookup r.cursor.generation l.segments) refl)
]
