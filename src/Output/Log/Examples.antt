-- ===== src/Output/Log/Examples.antt =====
-- Tests and witnesses for the output log, on a log with a completed and an active segment.
use ghostline.Prelude.{
  ℕ, ◌+◌, ◌≤◌, ◌<◌, ◌≡◌, ◌≢◌, ◌⊎◌, refl, true, false, Option, none, some, List, [], ◌∷◌, ◌++◌,
  Bytes, is_some, arith, if◌then◌else◌,
}
use ghostline.Prelude.Maps.{lookup, update}
use ghostline.Prelude.Int.{pos}
use ghostline.Errors.{Error, os_error, short_write, invalid_cursor, cursor_expired, ok, err}
use ghostline.Size.{Size}
use ghostline.Output.Cursor.{max_int64, Cursor, zero_cursor}
use ghostline.Output.Log.{
  Log, WriteAnswer, active_segment, append, append_written, grow, write_full, write_active, fail,
  signal, rotate, prune, prune_segments, resolve_cursor, end_cursor, start_of, earliest,
}
use ghostline.Output.Log.Invariant.{IsLog}
use ghostline.Output.Log.Append.{write_full_exact, append-IsLog, append_outcome}
use ghostline.Output.Log.Stream.{contents, stream, stream_of, joined, IsPosition}
use ghostline.Output.Log.Growth.{Extends, stream-append}
use ghostline.Output.Log.Rotate.{rotate_outcome}
use ghostline.Output.Log.Retention.{is_kept, lookup-prune, prune-Extends}
use ghostline.Output.Log.Serving.{IsUntouched, IsRemoved, prune-serves}
use ghostline.Output.Log.Resolve.{resolve-zero_cursor, resolve_exact, resolve-prune}

abbrev pub wide : Size
wide = record { columns = pos 120; rows = pos 36 }

abbrev pub at' : ℕ → ℕ → Cursor
at' g n = record { generation = g; offset = n }

abbrev pub two_segments : Log
two_segments = record {
  directory = b'd' ∷ [];
  generation = 2;
  segments = (1, record { path = []; size = 3 }) ∷ (2, record { path = []; size = 1 }) ∷ [];
  files = update (update (λ _. []) 1 (7 ∷ 8 ∷ 9 ∷ [])) 2 (5 ∷ []);
  linked = λ _. true;
  active = true;
  changed = 0;
  closed = false;
  err = none;
  sizes = record { cursor = at' 2 0; size = wide } ∷ [];
}

pub two_segments-IsLog : IsLog two_segments
unfolding lookup
two_segments-IsLog = record {
  numbered = (omega arith, omega arith);
  present = refl;
  keys = (λ g s e. ground arith);
  distinct = (refl, (refl, tt));
  in_directory = (λ g s e. refl);
  completed = (λ g s e n. ground arith);
  whole = (λ _. refl);
  written = omega arith;
  small = omega arith;
  fatal = (λ n. absurd (n refl));
}

in_first : IsPosition two_segments (at' 1 1)
unfolding contents
in_first = (omega arith, omega arith, omega arith)

-- The reader in the first segment has the rest of it and the second before it.
stream_runs : stream two_segments (at' 1 1) ≡ 8 ∷ 9 ∷ 5 ∷ []
unfolding stream_of contents joined lookup
stream_runs = refl

short_answers : List WriteAnswer
short_answers = (1, none) ∷ (0, none) ∷ []

append_short : (append ((1, none) ∷ (0, none) ∷ []) (3 ∷ 4 ∷ []) two_segments).1 ≡ some short_write
unfolding append write_full append_written fail signal write_active
append_short = refl

pub append_whole : (append [] (1 ∷ 2 ∷ []) two_segments).1 ≡ none
unfolding append write_full append_written fail signal write_active
append_whole = refl

pub append_generation : (append [] (1 ∷ 2 ∷ []) two_segments).0.generation ≡ 2
unfolding append write_full append_written fail signal write_active grow
append_generation = refl

append_fits : (active_segment two_segments).size + 2 ≤ 9223372036854775807
unfolding lookup
append_fits = omega arith

append-IsLog_example : IsLog (append [] (3 ∷ 4 ∷ []) two_segments).0
append-IsLog_example = append-IsLog [] (3 ∷ 4 ∷ []) two_segments append_fits two_segments-IsLog

write_full_exact_example :
    let r = write_full ((1, none) ∷ (5, some (os_error 28)) ∷ []) (3 ∷ 4 ∷ []) in
    (rest : Bytes) × (r.0 ++ rest ≡ 3 ∷ 4 ∷ []) × ((rest ≡ []) ⊎ ((e : Error) × (r.1 ≡ some e)))
write_full_exact_example = write_full_exact ((1, none) ∷ (5, some (os_error 28)) ∷ []) (3 ∷ 4 ∷ [])

append_outcome_example :
    let (l', e) = append ((1, none) ∷ (0, none) ∷ []) (3 ∷ 4 ∷ []) two_segments in
    ((e ≡ none)
      × (end_cursor l'
          ≡ record (end_cursor two_segments) { offset = (end_cursor two_segments).offset + 2 }))
    ⊎ ((e ≢ none) × (l'.closed ≡ true) × (end_cursor l' ≡ end_cursor two_segments))
append_outcome_example =
    append_outcome ((1, none) ∷ (0, none) ∷ []) (3 ∷ 4 ∷ []) two_segments append_fits
      two_segments-IsLog

stream-append_example :
    let (l', e) = append [] (3 ∷ 4 ∷ []) two_segments in
    ((e ≡ none) × Extends two_segments (at' 1 1) (3 ∷ 4 ∷ []) l')
    ⊎ ((e ≢ none) × Extends two_segments (at' 1 1) [] l')
stream-append_example =
    stream-append [] (3 ∷ 4 ∷ []) two_segments (at' 1 1) append_fits two_segments-IsLog in_first

rotate_outcome_example :
    let (l', result) = rotate none two_segments in
    ((e : Error) × (result ≡ err e) × (l' ≡ two_segments))
    ⊎ ((result ≡ ok (start_of 3))
        × IsLog l'
        × (end_cursor l' ≡ start_of 3)
        × Extends two_segments (at' 1 1) [] l')
rotate_outcome_example = rotate_outcome none two_segments (at' 1 1) two_segments-IsLog in_first

abbrev removable : ℕ → Option Error
removable g = none

lookup-prune_example :
    let (l', e) = prune removable (at' 2 0) two_segments in
    ((e ≡ none)
      × (lookup 1 l'.segments
          ≡ (if is_kept (at' 2 0) two_segments 1 then lookup 1 two_segments.segments else none)))
    ⊎ ((e ≢ none)
        × ((lookup 1 l'.segments ≡ lookup 1 two_segments.segments)
            ⊎ ((is_kept (at' 2 0) two_segments 1 ≡ false) × (lookup 1 l'.segments ≡ none))))
lookup-prune_example = lookup-prune removable (at' 2 0) two_segments 1 two_segments-IsLog

prune-Extends_test :
    IsLog (prune removable (at' 2 0) two_segments).0
    × Extends two_segments (at' 1 1) [] (prune removable (at' 2 0) two_segments).0
prune-Extends_test =
    prune-Extends removable (at' 2 0) (at' 1 1) two_segments two_segments-IsLog in_first

first_indexed : is_some (lookup 1 two_segments.segments) ≡ true
unfolding lookup
first_indexed = refl

in_second : IsPosition two_segments (at' 2 1)
unfolding contents lookup
in_second = (omega arith, omega arith, omega arith)

prune-serves_example :
    let (l', e) = prune removable (at' 2 0) two_segments in
    IsLog l'
    × (resolve_cursor l' (at' 2 1) ≡ resolve_cursor two_segments (at' 2 1))
    × (stream l' (at' 2 1) ≡ stream two_segments (at' 2 1))
    × IsUntouched 2 two_segments l'
    × ((e ≢ none) ⊎ IsRemoved 1 l')
prune-serves_example =
    prune-serves removable (at' 2 0) two_segments (at' 2 1) 2 1 two_segments-IsLog in_second refl
      (omega arith) (omega arith) refl first_indexed

prune_succeeds : (prune removable (at' 2 0) two_segments).1 ≡ none
unfolding prune prune_segments signal
prune_succeeds = refl

resolve-prune_test :
    resolve_cursor (prune removable (at' 2 0) two_segments).0 (at' 1 1) ≡ err cursor_expired
resolve-prune_test =
    resolve-prune removable (at' 2 0) (at' 1 1) two_segments two_segments-IsLog prune_succeeds
      (omega arith) (omega arith) (omega arith) (omega arith)

resolve-zero_cursor_test :
    let first = earliest 2 two_segments.segments in
    (resolve_cursor two_segments zero_cursor ≡ ok (start_of first))
    × (is_some (lookup first two_segments.segments) ≡ true)
    × (first ≤ 2)
unfolding lookup
resolve-zero_cursor_test = resolve-zero_cursor two_segments 2 two_segments-IsLog refl

resolve_exact_example :
    ((resolve_cursor two_segments (at' 2 7) ≡ ok (at' 2 7))
      × (7 ≤ max_int64)
      × IsPosition two_segments (at' 2 7)
      × (is_some (lookup 2 two_segments.segments) ≡ true))
    ⊎ ((resolve_cursor two_segments (at' 2 7) ≡ err cursor_expired)
        × (7 ≤ max_int64)
        × (0 < 2)
        × (2 < 2)
        × (lookup 2 two_segments.segments ≡ none))
    ⊎ ((resolve_cursor two_segments (at' 2 7) ≡ err invalid_cursor)
        × ((max_int64 < 7) ⊎ (¬ IsPosition two_segments (at' 2 7))))
resolve_exact_example = resolve_exact two_segments (at' 2 7) two_segments-IsLog (λ e. ground arith)
