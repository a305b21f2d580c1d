-- ===== src/Output/Log.antt =====
-- output.go, the type `outputLog`: one active segment and the completed ones before it.
-- Every method runs under `mu`, so each is one step from state to state. The contents of the
-- segment files stand in `files`, by generation: an unlinked file keeps its contents for who
-- has it open, and `linked` tells which ones can still be opened. What the operating system answers is an argument. `changed` counts the calls of
-- `signalLocked`: a waiting reader wakes up when the count moves.
pub mod Invariant
pub mod Append
pub mod Continues
pub mod Stream
pub mod Growth
pub mod Rotate
pub mod Retention
pub mod Resolve
pub mod Serving
pub mod Examples
use ghostline.Prelude.{
  ℕ, zero, suc, ◌+◌, ◌-◌, ◌%◌, ◌≤◌, ◌≡◌, Bool, true, false, ◌&&◌, ◌||◌, not, Option, none, some,
  List, [], ◌∷◌, ◌++◌, Bytes, ltb, leb, ◌==◌, if◌then◌else◌, is_some, length, drop, take, min,
}
use ghostline.Prelude.Maps.{lookup, put, update}
use ghostline.Errors.{
  Error, session_closed, invalid_cursor, cursor_expired, short_write, failure, Result, ok, err,
}
use ghostline.Size.{Size, size_eq, zero_size}
use ghostline.Text.Decimal.{format_padded}
use ghostline.Output.Cursor.{Cursor, zero_cursor, cursor_eq, max_int64}

pub record Segment : Type 0 where
  pub path : Bytes
  pub size : ℕ  -- uint64

-- One grid change at an exact output position.
pub record SizeMark : Type 0 where
  pub cursor : Cursor
  pub size : Size

pub record Log : Type 0 where
  pub directory : Bytes
  pub generation : ℕ  -- uint64
  pub segments : List (ℕ × Segment)
  pub files : ℕ → Bytes
  pub linked : ℕ → Bool  -- whether the file stands in the directory
  pub active : Bool  -- l.active != nil
  pub changed : ℕ
  pub closed : Bool
  pub err : Option Error
  pub sizes : List SizeMark

-- uint64 addition
abbrev pub add64 : ℕ → ℕ → ℕ
add64 a b = (a + b) % 18446744073709551616

-- directory + "/" + fmt.Sprintf("%020d.out", generation)
unfoldable pub output_segment_path : Bytes → ℕ → Bytes
output_segment_path directory generation =
    directory ++ (b'/' ∷ (format_padded 20 generation ++ (b'.' ∷ b'o' ∷ b'u' ∷ b't' ∷ [])))

-- Reading a missing key gives the zero segment.
abbrev pub segment_or_zero : Option Segment → Segment
segment_or_zero none = record { path = []; size = 0 }
segment_or_zero (some segment) = segment

abbrev pub active_segment : Log → Segment
active_segment l = segment_or_zero (lookup l.generation l.segments)

unfoldable pub signal : Log → Log
signal l = record l { changed = l.changed + 1 }

abbrev or_error : Option Error → Error → Option Error
or_error none e = some e
or_error (some old) e = some old

-- failLocked
unfoldable pub fail : Error → Log → Log
unfolding signal
fail e l = signal (record l { err = or_error l.err e; closed = true; active = false })

unfoldable pub close : Option Error → Log → Log
unfolding signal
close e l = if l.closed then l else signal (record l { closed = true; err = e; active = false })

-- What a writer answers to one call of Write: how many bytes it took, and its error.
abbrev pub WriteAnswer : Type 0
WriteAnswer = ℕ × Option Error

-- session.go, writeFull: the bytes that reached the file, and the error. A writer takes at most
-- what it was offered. Where the answers end, the writer takes all that is left.
unfoldable pub write_full : List WriteAnswer → Bytes → Bytes × Option Error
write_full answers [] = ([], none)
write_full [] (b ∷ data') = (b ∷ data', none)
write_full ((n, some e) ∷ answers) (b ∷ data') = (take n (b ∷ data'), some e)
write_full ((zero, none) ∷ answers) (b ∷ data') = ([], some short_write)
write_full ((suc n, none) ∷ answers) (b ∷ data') =
    let (written, e) = write_full answers (drop n data') in (b ∷ (take n data' ++ written), e)

-- What a method on a closed log returns: the terminal error, or ErrSessionClosed.
abbrev pub closed_error : Option Error → Error
closed_error none = session_closed
closed_error (some e) = e

-- `segment.size += n` at the active generation
pub grow : ℕ → Log → Log
grow n l = record l {
  segments =
      put l.generation (record (active_segment l) { size = add64 (active_segment l).size n })
        l.segments;
}

pub write_active : Bytes → Log → Log
write_active written l = record l {
  files = update l.files l.generation (l.files l.generation ++ written);
}

pub append_written : Bytes → Bytes × Option Error → Log → Log × Option Error
unfolding grow write_active
append_written data' (written, none) l =
    (signal (grow (length data') (write_active written l)), none)
append_written data' (written, some e) l = let l' = fail e (write_active written l) in (l', l'.err)

unfoldable pub append : List WriteAnswer → Bytes → Log → Log × Option Error
unfolding append_written
append answers [] l = (l, none)
append answers (b ∷ data') l =
    if l.closed
    then (l, some (closed_error l.err))
    else append_written (b ∷ data') (write_full answers (b ∷ data')) l

unfoldable pub end_cursor : Log → Cursor
end_cursor l = record { generation = l.generation; offset = (active_segment l).size }

-- outputLog.cursor
unfoldable pub cursor : Log → Result Cursor
unfolding end_cursor
cursor l = elim l.err [ some e ↦ err e | none ↦ ok (end_cursor l) ]

-- The smallest generation that has a segment, at most `generation`.
unfoldable pub earliest : ℕ → List (ℕ × Segment) → ℕ
earliest generation [] = generation
earliest generation ((candidate, s) ∷ rest) =
    earliest (if ltb candidate generation then candidate else generation) rest

resolve_in : Option Segment → Cursor → ℕ → Result Cursor
resolve_in none c generation =
    if ltb c.generation generation then err cursor_expired else err invalid_cursor
resolve_in (some segment) c generation =
    if ltb segment.size c.offset then err invalid_cursor else ok c

-- resolveCursorLocked
unfoldable pub resolve_cursor : Log → Cursor → Result Cursor
unfolding resolve_in
resolve_cursor l c =
    if cursor_eq c zero_cursor
    then ok (record { generation = earliest l.generation l.segments; offset = 0 })
    else if (c.generation == 0) || ltb max_int64 c.offset
    then err invalid_cursor
    else resolve_in (lookup c.generation l.segments) c l.generation

-- A new generation starts with the size of the last mark, if there is one.
unfoldable pub carry_size : Cursor → List SizeMark → List SizeMark
carry_size at' [] = []
carry_size at' (mark ∷ []) = mark ∷ record { cursor = at'; size = mark.size } ∷ []
carry_size at' (mark ∷ next ∷ rest) = mark ∷ carry_size at' (next ∷ rest)

abbrev pub start_of : ℕ → Cursor
start_of generation = record { generation = generation; offset = 0 }

unfoldable pub publish : ℕ → Log → Log
publish next l = signal (record l {
  generation = next;
  segments = put next (record { path = output_segment_path l.directory next; size = 0 }) l.segments;
  files = update l.files next [];
  linked = update l.linked next true;
  active = true;
  sizes = carry_size (start_of next) l.sizes;
})

-- `created` is the error of creating the new file, which must not exist.
unfoldable pub rotate : Option Error → Log → Log × Result Cursor
rotate created l =
    if l.closed
    then (l, err (closed_error l.err))
    else if add64 l.generation 1 == 0
    then (l, err (failure []))
    else elim created [
      | some e ↦ (l, err e)
      | none ↦ (publish (add64 l.generation 1) l, ok (start_of (add64 l.generation 1)))
    ]

-- The loop of prune. `removed g` is the error of removing the file of generation g, with none for
-- ErrNotExist. What stands behind a failed removal stays.
unfoldable pub prune_segments :
    (ℕ → Option Error) → ℕ → ℕ → List (ℕ × Segment) → List (ℕ × Segment) × Option Error
prune_segments removed before generation [] = ([], none)
prune_segments removed before generation ((g, s) ∷ rest) =
    let (kept, e) = prune_segments removed before generation rest in
    if leb before g || (g == generation)
    then ((g, s) ∷ kept, e)
    else elim (removed g) [ some failed ↦ ((g, s) ∷ rest, some failed) | none ↦ (kept, e) ]

unfoldable pub retained_marks : List (ℕ × Segment) → List SizeMark → List SizeMark
retained_marks segments [] = []
retained_marks segments (mark ∷ marks) =
    if is_some (lookup mark.cursor.generation segments)
    then mark ∷ retained_marks segments marks
    else retained_marks segments marks

-- Which files stand in the directory once those are removed that have left the index.
abbrev pub still_linked : List (ℕ × Segment) → List (ℕ × Segment) → (ℕ → Bool) → ℕ → Bool
still_linked kept segments linked g =
    linked g && (is_some (lookup g kept) || not (is_some (lookup g segments)))

pub pruned : List (ℕ × Segment) × Option Error → Log → Log × Option Error
pruned (kept, some e) l =
    (record l { segments = kept; linked = still_linked kept l.segments l.linked }, some e)
pruned (kept, none) l = (
  signal (record l {
    segments = kept;
    linked = still_linked kept l.segments l.linked;
    sizes = retained_marks kept l.sizes;
  }),
  none,
)

unfoldable pub prune : (ℕ → Option Error) → Cursor → Log → Log × Option Error
unfolding pruned
prune removed before l = elim l.err [
  | some e ↦ (l, some e)
  | none ↦
      if l.closed
      then (l, some session_closed)
      else if (before.generation == 0)
          || not (before.offset == 0)
          || ltb l.generation before.generation
      then (l, some invalid_cursor)
      else pruned (prune_segments removed before.generation l.generation l.segments) l
]
