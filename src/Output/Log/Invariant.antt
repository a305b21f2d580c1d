-- ===== src/Output/Log/Invariant.antt =====
-- What holds of an output log between two of its methods, and that every method keeps it.
use ghostline.Prelude.{
  ℕ, ◌+◌, ◌≤◌, ◌<◌, ◌≡◌, ◌≢◌, ◌⊎◌, inl, inr, refl, true, false, Option, none, some, Bytes, ◌==◌,
  if◌then◌else◌, is_some, length, arith, length-append, Bool-cases, Option-cases, subst,
}
use ghostline.Prelude.Maps.{lookup, lookup-put, IsDistinct, IsDistinct-put}
use ghostline.Errors.{Error}
use ghostline.Output.Cursor.{max_int64, max_uint64}
use ghostline.Output.Log.{
  Log, Segment, active_segment, signal, fail, close, grow, write_active, output_segment_path, add64,
  publish,
}

pub record IsLog (l : Log) : Type 0 where
  pub numbered : (0 < l.generation) × (l.generation ≤ max_uint64)
  pub present : is_some (lookup l.generation l.segments) ≡ true
  pub keys : (g : ℕ) (s : Segment) → lookup g l.segments ≡ some s → (0 < g) × (g ≤ l.generation)
  pub distinct : IsDistinct l.segments
  -- The file of a segment can be opened.
  pub in_directory : (g : ℕ) (s : Segment) → lookup g l.segments ≡ some s → l.linked g ≡ true
  -- A completed segment is its whole file.
  pub completed :
      (g : ℕ) (s : Segment)
      → lookup g l.segments ≡ some s
      → g ≢ l.generation
      → s.size ≡ length (l.files g)
  -- The active segment is its whole file while the log is open; a failed write may leave more.
  pub whole : l.closed ≡ false → (active_segment l).size ≡ length (l.files l.generation)
  pub written : (active_segment l).size ≤ length (l.files l.generation)
  pub small : (active_segment l).size ≤ max_int64
  pub fatal : l.err ≢ none → l.closed ≡ true

pub fail-IsLog : (e : Error) (l : Log) → IsLog l → IsLog (fail e l)
unfolding fail
fail-IsLog e l v = record {
  numbered = v.numbered;
  present = v.present;
  keys = v.keys;
  distinct = v.distinct;
  in_directory = v.in_directory;
  completed = v.completed;
  whole = (λ h. cc);
  written = v.written;
  small = v.small;
  fatal = (λ _. refl);
}

-- `close` on a closed log does nothing.
pub close_cases :
    (e : Option Error) (l : Log)
    → ((l.closed ≡ true) × (close e l ≡ l))
      ⊎ ((l.closed ≡ false)
          × (close e l ≡ signal (record l { closed = true; err = e; active = false })))
unfolding close
close_cases e l = elim (Bool-cases l.closed) [
  | inl h ↦ inl (h, ground arith)
  | inr h ↦ inr (h, ground arith)
]

pub close-IsLog : (e : Option Error) (l : Log) → IsLog l → IsLog (close e l)
unfolding signal
close-IsLog e l v = elim (close_cases e l) [
  | inl (h, q) ↦ rw q v
  | inr (h, q) ↦ rw q (record {
    numbered = v.numbered;
    present = v.present;
    keys = v.keys;
    distinct = v.distinct;
    in_directory = v.in_directory;
    completed = v.completed;
    whole = (λ h. cc);
    written = v.written;
    small = v.small;
    fatal = (λ _. refl);
  })
]

pub active_linked : (l : Log) → IsLog l → l.linked l.generation ≡ true
active_linked l v = elim (Option-cases (lookup l.generation l.segments)) [
  | inl e ↦ absurd (ground (arith, v.present, e))
  | inr (s, e) ↦ v.in_directory l.generation s e
]

-- The segments after a write of `data'`.
pub lookup-grow :
    (data' : Bytes) (l : Log) (g : ℕ)
    → lookup g (grow (length data') (write_active data' l)).segments ≡ (
        if l.generation == g
        then some
            (record (active_segment l) { size = add64 (active_segment l).size (length data') })
        else lookup g l.segments)
unfolding grow write_active
lookup-grow data' l g = lookup-put l.generation g _ l.segments

pub grow_write-IsLog :
    (data' : Bytes) (l : Log)
    → l.closed ≡ false
    → (active_segment l).size + length data' ≤ max_int64
    → IsLog l
    → IsLog (grow (length data') (write_active data' l))
unfolding grow write_active
grow_write-IsLog data' l o h v =
    let here = lookup-grow data' l l.generation in
    let longer = length-append (l.files l.generation) data' in
    record {
      numbered = v.numbered;
      present = ground (arith, here);
      keys = (λ g s e. ground (arith, v.keys g s, lookup-grow data' l g, v.numbered));
      distinct = IsDistinct-put l.generation _ l.segments v.distinct;
      in_directory = (λ g s e. elim (Bool-cases (l.generation == g)) [
        | inl q ↦ subst (λ k. l.linked k ≡ true) (ground (arith, q)) (active_linked l v)
        | inr q ↦ v.in_directory g s (ground (arith, q, e, lookup-grow data' l g))
      ]);
      completed = (λ g s e n. ground (arith, v.completed g s, lookup-grow data' l g));
      whole = (λ c. ground (arith, here, v.whole o, longer));
      written = ground (arith, here, v.whole o, longer);
      small = ground (arith, here);
      fatal = v.fatal;
    }

pub signal-IsLog : (l : Log) → IsLog l → IsLog (signal l)
unfolding signal
signal-IsLog l v = record {
  numbered = v.numbered;
  present = v.present;
  keys = v.keys;
  distinct = v.distinct;
  in_directory = v.in_directory;
  completed = v.completed;
  whole = v.whole;
  written = v.written;
  small = v.small;
  fatal = v.fatal;
}

-- Bytes behind the recorded size are not part of the log.
pub write_partly-IsLog :
    (e : Error) (written : Bytes) (l : Log) → IsLog l → IsLog (fail e (write_active written l))
unfolding write_active fail signal
write_partly-IsLog e written l v = record {
  numbered = v.numbered;
  present = v.present;
  keys = v.keys;
  distinct = v.distinct;
  in_directory = v.in_directory;
  completed = (λ g s q n. ground (arith, v.completed g s));
  whole = (λ h. cc);
  written = ground (arith, v.written, length-append (l.files l.generation) written);
  small = v.small;
  fatal = (λ _. refl);
}

pub lookup-publish :
    (l : Log) (next g : ℕ)
    → lookup g (publish next l).segments ≡ (
        if next == g
        then some (record { path = output_segment_path l.directory next; size = 0 })
        else lookup g l.segments)
unfolding publish signal
lookup-publish l next g = lookup-put next g _ l.segments

pub publish-IsLog :
    (l : Log)
    → l.closed ≡ false
    → l.generation < max_uint64
    → IsLog l
    → IsLog (publish (l.generation + 1) l)
unfolding publish signal
publish-IsLog l o n v =
    let here = lookup-publish l (l.generation + 1) (l.generation + 1) in
    record {
      numbered = (omega arith, omega arith);
      present = ground (arith, here);
      keys = (λ g s e. ground (arith, v.keys g s, lookup-publish l (l.generation + 1) g));
      distinct = IsDistinct-put (l.generation + 1) _ l.segments v.distinct;
      in_directory =
          (λ g s e. ground (arith, v.in_directory g s, lookup-publish l (l.generation + 1) g));
      completed = (λ g s e m.
          ground
            (arith, v.keys g s, v.completed g s, v.whole o, lookup-publish l (l.generation + 1) g));
      whole = (λ c. ground (arith, here));
      written = ground (arith, here);
      small = ground (arith, here);
      fatal = v.fatal;
    }
