-- ===== src/Output/Reader.antt =====
-- output.go, the type `localOutputSource`: a reader of a log. One pass of the loop in `read` is a
-- step: it runs under the reader's lock and the log's, up to the system calls that follow. What
-- the operating system answers is in an `Env`. A step that has to wait for the log ends the call
-- here: the next one goes on from the same state once `changed` has moved.
pub mod Windows
pub mod Pass
pub mod Delivery
pub mod Sized
pub mod Stale
pub mod Examples
use ghostline.Prelude.{
  ℕ, zero, suc, ◌+◌, ◌-◌, ◌≤◌, ◌<◌, ◌≡◌, Bool, true, false, ◌&&◌, ◌||◌, not, Option, none, some,
  List, [], ◌∷◌, ◌++◌, Bytes, ltb, leb, ◌==◌, if◌then◌else◌, is_some, length, drop, take, min,
}
use ghostline.Prelude.Maps.{lookup}
use ghostline.Errors.{Error, Result, ok, err, closed_pipe, canceled, cursor_expired, eof}
use ghostline.Size.{Size, size_eq, zero_size}
use ghostline.Output.Cursor.{Cursor}
use ghostline.Output.Log.{Log, Segment, resolve_cursor, segment_or_zero, add64, start_of}
use ghostline.Output.Marks.{Span, size_span}

pub record Reader : Type 0 where
  pub cursor : Cursor
  pub reported : Size
  pub file : Option ℕ  -- r.file and r.fileGen: the generation of the file that is open
  pub file_limit : ℕ
  pub complete : Bool
  pub done : Bool  -- r.done is closed
  pub canceled : Bool  -- r.ctx is done

-- What ReadAt answers: all that was asked for and is there, or a failure after some bytes.
pub data ReadAnswer : Type 0 where
  whole : ReadAnswer
  fails : ℕ → Error → ReadAnswer

pub record Env : Type 0 where
  pub opened : Option Error  -- the error of os.Open
  pub answer : ReadAnswer
  pub done_first : Bool  -- which case `select` takes when both are ready

pub record Chunk : Type 0 where
  pub bytes : Bytes
  pub size : Size
  pub error : Option Error

pub data Step : Type 0 where
  returns : Reader → Chunk → Step
  again : Reader → Step  -- `continue`
  waits : Reader → Step  -- blocks in the second `select`

abbrev pub fails_with : Error → Chunk
fails_with e = record { bytes = []; size = zero_size; error = some e }

-- The two cases of `select` that end a read.
abbrev stopped : Env → Reader → Option Error
stopped env r =
    if r.done && (env.done_first || not r.canceled)
    then some closed_pipe
    else if r.canceled
    then some canceled
    else none

-- newLocalOutputSource and pin
pinned : Cursor → Log → Reader
pinned c l = record {
  cursor = c;
  reported = zero_size;
  file = some c.generation;
  file_limit = (segment_or_zero (lookup c.generation l.segments)).size;
  complete = ltb c.generation l.generation;
  done = false;
  canceled = false;
}

-- outputLog.reader
unfoldable pub open_reader : Option Error → Bool → Cursor → Log → Result Reader
unfolding pinned
open_reader opened context_done from l = if context_done then err canceled else elim l.err [
  | some e ↦ err e
  | none ↦ elim (resolve_cursor l from) [
    | err e ↦ err e
    | ok c ↦ elim opened [ some e ↦ err e | none ↦ ok (pinned c l) ]
  ]
]

-- os.File.ReadAt: it reads all that it can, and io.EOF tells that this was less than asked for.
unfoldable pub read_at : ReadAnswer → Bytes → ℕ → ℕ → Bytes × Option Error
read_at whole file n offset =
    let bytes = take n (drop offset file) in
    (bytes, if ltb (length bytes) n then some eof else none)
read_at (fails k e) file n offset = (take (min k n) (drop offset file), some e)

-- `if n > 0 && (err == nil || errors.Is(err, io.EOF)) { return n, size, nil }`
read_error : Bytes → Option Error → Option Error
read_error [] e = e
read_error (b ∷ bytes) none = none
read_error (b ∷ bytes) (some eof) = none
read_error (b ∷ bytes) (some e) = some e

-- r.file != nil && r.fileGen == generation
abbrev pub is_file : Option ℕ → ℕ → Bool
is_file none generation = false
is_file (some g) generation = g == generation

-- The read itself, once there is something to read: openFile, ReadAt, and the cursor moved on.
pub deliver : Env → ℕ → ℕ → Size → Reader → Log → Step
unfolding read_error
deliver env n end size r l =
    let opens = not (is_file r.file r.cursor.generation) in
    elim (if opens then env.opened else none) [
      | some e ↦ returns (record r { file = none }) (fails_with e)
      | none ↦
          let (bytes, e) =
            read_at env.answer (l.files r.cursor.generation) (min n (end - r.cursor.offset))
              r.cursor.offset in
          returns
            (record r {
              file = some r.cursor.generation;
              cursor = record r.cursor { offset = add64 r.cursor.offset (length bytes) };
            })
            (record { bytes = bytes; size = size; error = read_error bytes e })
    ]

-- What `read` learns of the reader's own segment.
refresh : Option Segment → Log → Reader → Reader
refresh (some segment) l r = record r {
  file_limit = segment.size;
  complete = ltb r.cursor.generation l.generation;
}
refresh none l r =
    if is_file r.file r.cursor.generation
    then record r { complete = ltb r.cursor.generation l.generation }
    else r

-- Behind the tests for the size: read up to `end`, go on to the next generation, or wait.
pub advance_to : Env → ℕ → ℕ → Size → Reader → Log → Step
advance_to env n end size r l =
    if ltb r.cursor.offset end
    then deliver env n end size r l
    else if r.complete && leb r.file_limit r.cursor.offset
    then again (record r { file = none; cursor = start_of (add64 r.cursor.generation 1) })
    else if l.closed
    then returns r (elim l.err [ some e ↦ fails_with e | none ↦ fails_with eof ])
    else waits r

-- A bounded span cuts the read off at the next mark.
abbrev cut_at : ℕ → ℕ → Option ℕ → ℕ
cut_at offset limit none = limit
cut_at offset limit (some span) = if ltb (add64 offset span) limit then add64 offset span else limit

pub step_sized : Env → ℕ → Span → Reader → Log → Step
step_sized env n s r l =
    if not (size_eq s.size zero_size) && not (size_eq s.size r.reported)
    then returns (record r { reported = s.size })
        (record { bytes = []; size = s.size; error = none })
    else advance_to env n (cut_at r.cursor.offset r.file_limit s.span) s.size r l

pub step_open : Env → ℕ → Bool → Reader → Log → Step
step_open env n sized r l =
    if sized
    then step_sized env n (size_span l.sizes r.cursor) r l
    else advance_to env n r.file_limit zero_size r l

pub step_segment : Env → ℕ → Bool → Option Segment → Reader → Log → Step
unfolding refresh
step_segment env n sized segment r l =
    let r' = refresh segment l r in
    if not (is_some segment) && not (is_file r'.file r'.cursor.generation && r'.complete)
    then returns r' (fails_with cursor_expired)
    else step_open env n sized r' l

-- One pass of the loop of `read`, for a buffer of n bytes.
pub step : Env → ℕ → Bool → Reader → Log → Step
step env n sized r l = elim (stopped env r) [
  | some e ↦ returns r (fails_with e)
  | none ↦ step_segment env n sized (lookup r.cursor.generation l.segments) r l
]

-- read: `none` where the fuel runs out.
pub read : ℕ → Env → ℕ → Bool → Reader → Log → Option Step
read zero env n sized r l = none
read (suc fuel) env n sized r l =
    if n == 0
    then some (returns r (record { bytes = []; size = zero_size; error = none }))
    else elim (step env n sized r l) [
      | returns r' chunk ↦ some (returns r' chunk)
      | waits r' ↦ some (waits r')
      | again r' ↦ read fuel env n sized r' l
    ]

-- Close
unfoldable pub close_reader : Reader → Reader
close_reader r = record r { done = true; file = none }
