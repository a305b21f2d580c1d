-- ===== src/Output/Marks/Updates.antt =====
-- What `markSize` does to the meaning of the marks.
use ghostline.Prelude.{
  ◌≤◌, ◌≡◌, inl, inr, ◌&&◌, List, [], ◌∷◌, ◌++◌, leb, ◌==◌, if◌then◌else◌, arith, refl, ◌≢◌, none,
  some, Bool-cases, Option-cases, false, ◌∙◌, sym, subst, Bool,
}
use ghostline.Size.{Size, zero_size, size_eq, size_eq_iff}
use ghostline.Output.Cursor.{Cursor, cursor_eq, cursor_eq_iff}
use ghostline.Output.Log.{Log, SizeMark, end_cursor, signal}
use ghostline.Output.Marks.{split_last, collapse_sizes, mark_after, mark_size}
use ghostline.Output.Marks.Order.{Before, IsOrdered, size_from, size_at, AllAfter-Before}

-- The marks of a log whose end is at `e`: in order, and the last one in the active generation.
abbrev pub MarksTo : Cursor → List SizeMark → Type 0
MarksTo e [] = Unit {0}
MarksTo e (mark ∷ []) = (mark.cursor.generation ≡ e.generation) × (mark.cursor.offset ≤ e.offset)
MarksTo e (mark ∷ next ∷ marks) = Before mark.cursor next.cursor × MarksTo e (next ∷ marks)

pub MarksTo-IsOrdered : (e : Cursor) (marks : List SizeMark) → MarksTo e marks → IsOrdered marks
MarksTo-IsOrdered e [] h = tt
MarksTo-IsOrdered e (m ∷ []) h = (tt, tt)
MarksTo-IsOrdered e (m ∷ n ∷ marks) h =
    let o = MarksTo-IsOrdered e (n ∷ marks) h.1 in
    ((h.0, AllAfter-Before m.cursor n.cursor marks h.0 o.0), o)

pub split_last-none : (marks : List SizeMark) → split_last marks ≡ none → marks ≡ []
unfolding split_last
split_last-none [] e = refl
split_last-none (m ∷ marks) e = ground arith

pub split_last-append :
    (marks front : List SizeMark) (last : SizeMark)
    → split_last marks ≡ some (front, last)
    → marks ≡ front ++ (last ∷ [])
unfolding split_last
split_last-append [] front last e = cc
split_last-append (m ∷ marks) front last e = elim (Option-cases (split_last marks)) [
  | inl h ↦ ground (arith, split_last-none marks h)
  | inr ((f, l), h) ↦ ground (arith, split_last-append marks f l h)
]

-- The end may move on in its generation.
pub MarksTo-le :
    (e e' : Cursor) (marks : List SizeMark)
    → e'.generation ≡ e.generation
    → e.offset ≤ e'.offset
    → MarksTo e marks
    → MarksTo e' marks
MarksTo-le e e' [] g o h = tt
MarksTo-le e e' (m ∷ []) g o h = (omega (arith, h.0), omega (arith, h.1))
MarksTo-le e e' (m ∷ n ∷ marks) g o h = (h.0, MarksTo-le e e' (n ∷ marks) g o h.1)

applies : SizeMark → Cursor → Bool
applies m c = (m.cursor.generation == c.generation) && leb m.cursor.offset c.offset

size_from-append :
    (size : Size) (marks : List SizeMark) (m : SizeMark) (c : Cursor)
    → size_from size (marks ++ (m ∷ [])) c
      ≡ (if applies m c then m.size else size_from size marks c)
unfolding size_from applies
size_from-append size [] m c = refl
size_from-append size (n ∷ marks) m c =
    size_from-append
      (if (n.cursor.generation == c.generation) && leb n.cursor.offset c.offset
        then n.size
        else size)
      marks m c

size_from-collapse :
    (size : Size) (marks : List SizeMark) (c : Cursor)
    → IsOrdered marks
    → size_from size (collapse_sizes marks) c ≡ size_from size marks c
unfolding size_from collapse_sizes
size_from-collapse size [] c o = refl
size_from-collapse size (m ∷ []) c o = refl
size_from-collapse size (m ∷ n ∷ []) c o = ground (arith, size_eq_iff n.size m.size)
size_from-collapse size (m ∷ n ∷ l ∷ marks) c o =
    size_from-collapse
      (if (m.cursor.generation == c.generation) && leb m.cursor.offset c.offset
        then m.size
        else size)
      (n ∷ l ∷ marks) c o.1

MarksTo-append :
    (e : Cursor) (front : List SizeMark) (last : SizeMark)
    → MarksTo e (front ++ (last ∷ []))
    → (last.cursor.generation ≡ e.generation) × (last.cursor.offset ≤ e.offset)
MarksTo-append e [] last h = h
MarksTo-append e (m ∷ []) last h = h.1
MarksTo-append e (m ∷ n ∷ front) last h = MarksTo-append e (n ∷ front) last h.1

-- Only the cursors of the marks count for their order.
MarksTo-relabel :
    (e : Cursor) (front : List SizeMark) (last : SizeMark) (size : Size)
    → MarksTo e (front ++ (last ∷ []))
    → MarksTo e (front ++ (record last { size = size } ∷ []))
MarksTo-relabel e [] last size h = h
MarksTo-relabel e (m ∷ []) last size h = h
MarksTo-relabel e (m ∷ n ∷ front) last size h = (h.0, MarksTo-relabel e (n ∷ front) last size h.1)

MarksTo-collapse :
    (e : Cursor) (marks : List SizeMark) → MarksTo e marks → MarksTo e (collapse_sizes marks)
unfolding collapse_sizes
MarksTo-collapse e [] h = tt
MarksTo-collapse e (m ∷ []) h = h
MarksTo-collapse e (m ∷ n ∷ []) h = ground arith
MarksTo-collapse e (m ∷ n ∷ l ∷ []) h = ground arith
MarksTo-collapse e (m ∷ n ∷ l ∷ k ∷ marks) h = (h.0, MarksTo-collapse e (n ∷ l ∷ k ∷ marks) h.1)

MarksTo-new :
    (e : Cursor) (front : List SizeMark) (last : SizeMark) (size : Size)
    → last.cursor ≢ e
    → MarksTo e (front ++ (last ∷ []))
    → MarksTo e ((front ++ (last ∷ [])) ++ (record { cursor = e; size = size } ∷ []))
MarksTo-new e [] last size n h =
    ((ground (arith, cursor_eq_iff last.cursor e)), (refl, omega arith))
MarksTo-new e (m ∷ []) last size n h = (h.0, MarksTo-new e [] last size n h.1)
MarksTo-new e (m ∷ k ∷ front) last size n h = (h.0, MarksTo-new e (k ∷ front) last size n h.1)

-- The marks after the change: what is recorded at the end `e`, and what held before it.
abbrev Records : Cursor → Cursor → Size → List SizeMark → List SizeMark → Type 0
Records e c size old new =
    MarksTo e new × (size_at new e ≡ size) × (Before c e → size_at new c ≡ size_at old c)

Records-new :
    (e c : Cursor) (size : Size) (front : List SizeMark) (last : SizeMark)
    → last.cursor ≢ e
    → MarksTo e (front ++ (last ∷ []))
    → let old = front ++ (last ∷ []) in
      Records e c size old (old ++ (record { cursor = e; size = size } ∷ []))
unfolding size_at applies
Records-new e c size front last n h =
    let new : SizeMark = record { cursor = e; size = size } in
    (
      MarksTo-new e front last size n h,
      size_from-append zero_size (front ++ (last ∷ [])) new e ∙ ground arith,
      (λ b. size_from-append zero_size (front ++ (last ∷ [])) new c ∙ ground arith),
    )

Records-same :
    (e c : Cursor) (size : Size) (front : List SizeMark) (last : SizeMark)
    → last.size ≡ size
    → MarksTo e (front ++ (last ∷ []))
    → let old = front ++ (last ∷ []) in Records e c size old old
unfolding size_at applies
Records-same e c size front last n h = (
  h,
  size_from-append zero_size front last e ∙ ground (arith, MarksTo-append e front last h),
  (λ _. refl),
)

Records-replace :
    (e c : Cursor) (size : Size) (front : List SizeMark) (last : SizeMark)
    → last.cursor ≡ e
    → MarksTo e (front ++ (last ∷ []))
    → let old = front ++ (last ∷ []) in
      Records e c size old (collapse_sizes (front ++ (record last { size = size } ∷ [])))
unfolding size_at applies
Records-replace e c size front last n h =
    let new = record last { size = size } in
    let k = MarksTo-relabel e front last size h in
    let o = MarksTo-IsOrdered e (front ++ (new ∷ [])) k in
    (
      MarksTo-collapse e (front ++ (new ∷ [])) k,
      size_from-collapse zero_size (front ++ (new ∷ [])) e o
          ∙ size_from-append zero_size front new e
          ∙ ground arith,
      (λ b.
          size_from-collapse zero_size (front ++ (new ∷ [])) c o
          ∙ size_from-append zero_size front new c
          ∙ ground arith
          ∙ sym (size_from-append zero_size front last c)),
    )

-- The three ways to record a size behind the marks `front` and `last`.
add_mark : Cursor → Size → List SizeMark → List SizeMark → SizeMark → List SizeMark
add_mark e size marks front last =
    if size_eq last.size size
    then marks
    else if cursor_eq last.cursor e
    then collapse_sizes (front ++ (record last { size = size } ∷ []))
    else marks ++ (record { cursor = e; size = size } ∷ [])

add_mark-Records :
    (e c : Cursor) (size : Size) (front : List SizeMark) (last : SizeMark)
    → MarksTo e (front ++ (last ∷ []))
    → let old = front ++ (last ∷ []) in Records e c size old (add_mark e size old front last)
unfolding add_mark
add_mark-Records e c size front last h = elim (Bool-cases (size_eq last.size size)) [
  | inl same ↦ rw same (Records-same e c size front last ((size_eq_iff _ _).0 same) h)
  | inr other ↦ rw other (elim (Bool-cases (cursor_eq last.cursor e)) [
    | inl here ↦ rw here (Records-replace e c size front last ((cursor_eq_iff _ _).0 here) h)
    | inr later ↦
        rw later (
          Records-new e c size front last (λ q. ground (arith, (cursor_eq_iff last.cursor e).1 q))
            h)
  ])
]

mark_after-some :
    (size : Size) (e : Cursor) (l : Log) (front : List SizeMark) (last : SizeMark)
    → (mark_after (some (front, last)) size e l).sizes ≡ add_mark e size l.sizes front last
unfolding mark_after signal add_mark
mark_after-some size e l front last = ground arith

mark_after-Records :
    (size : Size) (e c : Cursor) (l : Log) (marks : List SizeMark)
    → l.sizes ≡ marks
    → MarksTo e marks
    → Records e c size marks (mark_after (split_last marks) size e l).sizes
unfolding mark_after signal size_at size_from
mark_after-Records size e c l marks q h = elim (Option-cases (split_last marks)) [
  | inl p ↦
      rw (p, mark_after, q, split_last-none marks p)
        ((refl, omega arith), ground arith, (λ b. ground arith))
  | inr ((front, last), p) ↦
      let r = split_last-append marks front last p in
      rw (p, mark_after-some size e l front last, q)
        (subst (λ ms. MarksTo e ms → Records e c size ms (add_mark e size ms front last)) (sym r)
          (add_mark-Records e c size front last) h)
]

mark_size_open :
    (size : Size) (l : Log)
    → l.closed ≡ false
    → mark_size size l ≡ mark_after (split_last l.sizes) size (end_cursor l) l
unfolding mark_size
mark_size_open size l h = ground arith

-- On an open log, whose marks are in order up to its end, a size change keeps them in order,
-- is in effect from the end on, and changes nothing at any cursor before the end.
pub mark_size-size_at :
    (size : Size) (c : Cursor) (l : Log)
    → l.closed ≡ false
    → MarksTo (end_cursor l) l.sizes
    → Before c (end_cursor l)
    → MarksTo (end_cursor l) (mark_size size l).sizes
      × (size_at (mark_size size l).sizes (end_cursor l) ≡ size)
      × (size_at (mark_size size l).sizes c ≡ size_at l.sizes c)
mark_size-size_at size c l open' h b =
    let (k, now, before) = mark_after-Records size (end_cursor l) c l l.sizes refl h in
    rw (mark_size_open size l open') (k, now, before b)

pub mark_size-end_cursor : (size : Size) (l : Log) → end_cursor (mark_size size l) ≡ end_cursor l
unfolding mark_size mark_after end_cursor signal
mark_size-end_cursor size l = elim (Bool-cases l.closed) [
  | inl c ↦ rw (c, mark_size) refl
  | inr c ↦ elim (Option-cases (split_last l.sizes)) [
    | inl p ↦ rw (c, p, mark_size, mark_after) refl
    | inr ((front, last), p) ↦ ground (arith, c, p)
  ]
]
