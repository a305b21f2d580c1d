-- ===== src/Output/Marks.antt =====
-- output.go: the size marks of a log, `markSize`, `collapseSizesLocked` and `sizeSpanLocked`.
pub mod Order
pub mod Spans
pub mod Updates
pub mod Examples
use ghostline.Prelude.{
  ℕ, ◌+◌, ◌-◌, ◌≤◌, ◌≡◌, Bool, true, false, ◌&&◌, ◌||◌, not, Option, none, some, List, [], ◌∷◌,
  ◌++◌, ltb, leb, ◌==◌, if◌then◌else◌,
}
use ghostline.Size.{Size, size_eq, zero_size}
use ghostline.Output.Cursor.{Cursor, cursor_eq}
use ghostline.Output.Log.{Log, SizeMark, signal, end_cursor}

-- The list without its last mark, and that mark.
unfoldable pub split_last : List SizeMark → Option (List SizeMark × SizeMark)
split_last [] = none
split_last (mark ∷ marks) = elim (split_last marks) [
  | none ↦ some ([], mark)
  | some (front, last) ↦ some (mark ∷ front, last)
]

-- collapseSizesLocked: a trailing mark that repeats the size before it in its generation goes.
unfoldable pub collapse_sizes : List SizeMark → List SizeMark
collapse_sizes [] = []
collapse_sizes (mark ∷ []) = mark ∷ []
collapse_sizes (mark ∷ last ∷ []) =
    if size_eq last.size mark.size && (last.cursor.generation == mark.cursor.generation)
    then mark ∷ []
    else mark ∷ last ∷ []
collapse_sizes (mark ∷ next ∷ last ∷ rest) = mark ∷ collapse_sizes (next ∷ last ∷ rest)

mark_after : Option (List SizeMark × SizeMark) → Size → Cursor → Log → Log
mark_after none size at' l =
    signal (record l { sizes = l.sizes ++ (record { cursor = at'; size = size } ∷ []) })
mark_after (some (front, last)) size at' l =
    if size_eq last.size size
    then l
    else if cursor_eq last.cursor at'
    then signal (record l { sizes = collapse_sizes (front ++ (record last { size = size } ∷ [])) })
    else signal (record l { sizes = l.sizes ++ (record { cursor = at'; size = size } ∷ []) })

-- markSize
unfoldable pub mark_size : Size → Log → Log
unfolding mark_after
mark_size size l = if l.closed then l else mark_after (split_last l.sizes) size (end_cursor l) l

-- The result of sizeSpanLocked; `span` is none where the code returns an unbounded span.
pub record Span : Type 0 where
  pub size : Size
  pub span : Option ℕ

unfoldable pub span_from : Size → List SizeMark → Cursor → Span
span_from size [] c = record { size = size; span = none }
span_from size (mark ∷ marks) c =
    let skip = span_from size marks c in
    let enter = span_from mark.size marks c in
    if not (mark.cursor.generation == c.generation)
    then (if ltb c.generation mark.cursor.generation
        then record { size = size; span = none }
        else skip)
    else if leb mark.cursor.offset c.offset
    then enter
    else record { size = size; span = some (mark.cursor.offset - c.offset) }

-- sizeSpanLocked
unfoldable pub size_span : List SizeMark → Cursor → Span
unfolding span_from
size_span = span_from zero_size
