-- ===== src/Output/Reader/Examples.antt =====
-- Tests and witnesses for readers.
use ghostline.Prelude.{
  ℕ, ◌≤◌, ◌<◌, ◌≡◌, ◌⊎◌, refl, true, false, none, some, [], ◌∷◌, ◌++◌, Bytes, length, arith,
}
use ghostline.Prelude.Maps.{lookup, put}
use ghostline.Errors.{ok}
use ghostline.Size.{zero_size}
use ghostline.Output.Cursor.{Cursor, zero_cursor}
use ghostline.Output.Cursor.Distance.{advance}
use ghostline.Output.Log.{
  Log, append, write_full, signal, rotate, publish, carry_size, prune, prune_segments,
  resolve_cursor, earliest, start_of,
}
use ghostline.Output.Log.Stream.{contents, stream, IsPosition}
use ghostline.Output.Log.Examples.{two_segments, two_segments-IsLog, at', wide}
use ghostline.Output.Marks.{size_span}
use ghostline.Output.Marks.Order.{size_at}
use ghostline.Output.Reader.{
  Reader, Env, Step, returns, again, waits, whole, open_reader, read_at, deliver, advance_to,
  step_sized, step_open, step_segment, step, read,
}
use ghostline.Output.Reader.Pass.{IsReader}
use ghostline.Output.Reader.Delivery.{read-delivers, read-waits, read_total}
use ghostline.Output.Reader.Sized.{step-size_at}
use ghostline.Output.Reader.Stale.{step_stale}

abbrev calm : Env
calm = record { opened = none; answer = whole; done_first = true }

abbrev reader_at : Cursor → Reader
reader_at c = record {
  cursor = c;
  reported = zero_size;
  file = some c.generation;
  file_limit = 3;
  complete = false;
  done = false;
  canceled = false;
}

-- A reader at the end of the first segment goes on into the second.
read_runs :
    read 3 calm 10 false (reader_at (at' 1 3)) two_segments
    ≡ some (
        returns
          (record (reader_at (at' 2 1)) { file_limit = 1 })
          (record { bytes = 5 ∷ []; size = zero_size; error = none }))
unfolding read step step_segment step_open advance_to deliver read_at lookup
read_runs = refl

contents_small : (g : ℕ) → length (contents two_segments g) ≤ 9223372036854775807
unfolding contents lookup
contents_small g = ground arith

sample-IsReader : IsReader (reader_at (at' 1 3)) two_segments
unfolding contents
sample-IsReader = record {
  position = (omega arith, omega arith, omega arith);
  fits = contents_small;
  pinned = (λ e _. refl);
}

read-delivers_example :
    let r' = record (reader_at (at' 2 1)) { file_limit = 1 } in
    (stream two_segments (at' 1 3) ≡ (5 ∷ []) ++ stream two_segments (at' 2 1))
    × (length {A = ℕ} (5 ∷ []) ≤ 10)
    × IsPosition two_segments r'.cursor
read-delivers_example =
    read-delivers 3 10 calm false two_segments (reader_at (at' 1 3)) _ _ two_segments-IsLog
      (omega arith) sample-IsReader read_runs

last-IsReader : IsReader (reader_at (at' 2 1)) two_segments
unfolding contents lookup
last-IsReader = record {
  position = (omega arith, omega arith, omega arith);
  fits = contents_small;
  pinned = (λ e _. cc);
}

read_blocks :
    read 1 calm 10 false (reader_at (at' 2 1)) two_segments
    ≡ some (waits (record (reader_at (at' 2 1)) { file_limit = 1 }))
unfolding read step step_segment step_open advance_to deliver lookup
read_blocks = refl

read-waits_example :
    (stream two_segments (at' 2 1) ≡ [])
    × (stream two_segments (at' 2 1) ≡ [])
    × (two_segments.closed ≡ false)
read-waits_example =
    read-waits 1 10 calm false two_segments (reader_at (at' 2 1)) _ two_segments-IsLog (omega arith)
      last-IsReader read_blocks

read_total_example : (t : Step) × (read 2 calm 10 false (reader_at (at' 1 3)) two_segments ≡ some t)
read_total_example =
    read_total 2 10 calm false two_segments (reader_at (at' 1 3)) two_segments-IsLog (omega arith)
      sample-IsReader (omega arith)

abbrev told : Reader
told = record (reader_at (at' 2 0)) { reported = wide }

sized_runs :
    step calm 10 true told two_segments
    ≡ returns
        (record (record told { file_limit = 1 }) { cursor = at' 2 1 })
        (record { bytes = 5 ∷ []; size = wide; error = none })
unfolding step step_segment step_open step_sized advance_to deliver read_at lookup size_span
sized_runs = refl

step-size_at_example :
    (size_at two_segments.sizes (advance (at' 2 0) 0) ≡ wide) × ((wide ≡ zero_size) ⊎ (wide ≡ wide))
step-size_at_example =
    step-size_at calm 10 0 told _ two_segments _ (omega arith) sized_runs (omega arith)

-- An empty log, then two bytes, a rotation and a prune behind the back of an opened reader.
abbrev empty_log : Log
empty_log = record {
  directory = b'd' ∷ [];
  generation = 1;
  segments = (1, record { path = []; size = 0 }) ∷ [];
  files = λ _. [];
  linked = λ _. true;
  active = true;
  changed = 0;
  closed = false;
  err = none;
  sizes = [];
}

abbrev pruned_log : Log
pruned_log = (prune (λ _. none) (at' 2 0) (rotate none (append [] (7 ∷ 8 ∷ []) empty_log).0).0).0

abbrev early : Reader
early = record (reader_at (at' 1 0)) { file_limit = 0 }

early_opened : open_reader none false zero_cursor empty_log ≡ ok early
unfolding open_reader resolve_cursor earliest lookup
early_opened = refl

step_stale_example :
    (r' : Reader) × (missed : Bytes) × (step calm 10 false early pruned_log ≡ again r')
    × (r'.cursor ≡ start_of 2)
    × (0 < length missed)
    × (stream pruned_log (at' 1 0) ≡ missed ++ stream pruned_log r'.cursor)
unfolding append write_full signal rotate publish carry_size prune prune_segments lookup put
    contents
step_stale_example =
    step_stale calm 10 early pruned_log refl refl refl (omega arith) (omega arith) (omega arith)
      (omega arith)
