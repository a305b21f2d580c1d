-- ===== src/Output/Marks/Spans.antt =====
-- The span that a sized read stays in.
use ghostline.Prelude.{ℕ, ◌<◌, ◌≡◌, ◌⊎◌, List, [], ◌∷◌, arith, refl, sym, ◌∙◌, Option, none, some}
use ghostline.Size.{Size, zero_size}
use ghostline.Output.Cursor.{Cursor}
use ghostline.Output.Cursor.Distance.{advance}
use ghostline.Output.Log.{SizeMark}
use ghostline.Output.Marks.{span_from, size_span}
use ghostline.Output.Marks.Order.{IsOrdered, size_from, size_at, size_from_after, AllAfter-Before}

-- A distance inside a span; the unbounded span holds every distance.
abbrev pub IsWithin : ℕ → Option ℕ → Type 0
IsWithin k none = Unit {0}
IsWithin k (some n) = k < n

span_from-size :
    (size : Size) (marks : List SizeMark) (c : Cursor)
    → IsOrdered marks
    → (span_from size marks c).size ≡ size_from size marks c
unfolding span_from size_from
span_from-size size [] c o = refl
span_from-size size (m ∷ marks) c o = ground (
  arith,
  span_from-size size marks c o.1,
  span_from-size m.size marks c o.1,
  size_from_after size marks c,
  AllAfter-Before c m.cursor marks,
)

span_from-IsWithin :
    (size : Size) (marks : List SizeMark) (c : Cursor) (k : ℕ)
    → IsOrdered marks
    → IsWithin k (span_from size marks c).span
    → size_from size marks (advance c k) ≡ size_from size marks c
unfolding span_from size_from
span_from-IsWithin size [] c k o w = refl
span_from-IsWithin size (m ∷ marks) c k o w = ground (
  arith,
  span_from-IsWithin size marks c k o.1,
  span_from-IsWithin m.size marks c k o.1,
  size_from_after size marks c,
  size_from_after size marks (advance c k),
  AllAfter-Before c m.cursor marks,
  AllAfter-Before (advance c k) m.cursor marks,
)

-- Everything in the span of a cursor was produced for the size that the span reports.
pub size_span-size_at :
    (marks : List SizeMark) (c : Cursor) (k : ℕ)
    → IsOrdered marks
    → IsWithin k (size_span marks c).span
    → size_at marks (advance c k) ≡ (size_span marks c).size
unfolding size_span size_at
size_span-size_at marks c k o w =
    span_from-IsWithin zero_size marks c k o w ∙ sym (span_from-size zero_size marks c o)

-- Some mark stands exactly at the cursor.
abbrev pub HasMark : Cursor → List SizeMark → Type 0
HasMark c [] = ⊥
HasMark c (mark ∷ marks) = (mark.cursor ≡ c) ⊎ HasMark c marks

span_from-end :
    (size : Size) (marks : List SizeMark) (c : Cursor) (n : ℕ)
    → (span_from size marks c).span ≡ some n
    → (0 < n) × HasMark (advance c n) marks
unfolding span_from
span_from-end size [] c n e = cc
span_from-end size (m ∷ marks) c n e =
    ground (arith, span_from-end size marks c n, span_from-end m.size marks c n)

-- A bounded span is never empty and ends at a mark: it is as long as it can be told from the
-- marks, and a read that stays in it makes progress.
pub size_span_end :
    (marks : List SizeMark) (c : Cursor) (n : ℕ)
    → (size_span marks c).span ≡ some n
    → (0 < n) × HasMark (advance c n) marks
unfolding size_span
size_span_end = span_from-end zero_size
