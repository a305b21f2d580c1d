-- ===== src/Output/Reader/Delivery.antt =====
-- Calls of `read` as a whole: every byte once and in order, no wait while there is one, and an
-- end to the loop.
use ghostline.Prelude.{
  ℕ, zero, suc, ◌-◌, ◌≤◌, ◌<◌, ◌≡◌, ◌≢◌, inl, inr, refl, ap, subst, ◌∙◌, Bool, false, Option, none,
  some, [], ◌++◌, ◌==◌, length, arith, Bool-cases,
}
use native.Mathlib.Decide.{ℕ_discrete}
use ghostline.Size.{zero_size}
use ghostline.Output.Log.{Log}
use ghostline.Output.Log.Invariant.{IsLog}
use ghostline.Output.Log.Stream.{stream, IsPosition}
use ghostline.Output.Reader.{Reader, Env, Chunk, Step, returns, again, waits, step, read}
use ghostline.Output.Reader.Pass.{Delivers, IsReader, MarksFit, step-Delivers}

-- What a whole call does.
abbrev StartEnds : Log → Reader → ℕ → Option Step → Type 0
StartEnds l r n none = Unit {0}
StartEnds l r n (some (again r')) = ⊥
StartEnds l r n (some (returns r' chunk)) =
    (stream l r.cursor ≡ chunk.bytes ++ stream l r'.cursor)
    × (length chunk.bytes ≤ n)
    × IsPosition l r'.cursor
StartEnds l r n (some (waits r')) =
    (stream l r.cursor ≡ []) × (stream l r'.cursor ≡ []) × (l.closed ≡ false)

module _ (env : Env) (n : ℕ) (sized : Bool) (l : Log) (v : IsLog l) (f : MarksFit l.sizes) where
  again-IsReader : (r r' : Reader) → IsReader r l → Delivers l r n (again r') → IsReader r' l
  again-IsReader r r' k d = record { position = d.1; fits = k.fits; pinned = (λ e b. ground arith) }

  -- The rest of the call behind one pass.
  after_pass : ℕ → Step → Option Step
  after_pass fuel (returns r' chunk) = some (returns r' chunk)
  after_pass fuel (waits r') = some (waits r')
  after_pass fuel (again r') = read fuel env n sized r' l

  read-suc :
      (fuel : ℕ) (r : Reader)
      → n ≢ 0
      → read (suc fuel) env n sized r l ≡ after_pass fuel (step env n sized r l)
  unfolding read after_pass
  read-suc fuel r z = elim (Bool-cases (n == 0)) [
    | inl e ↦ absurd (z (ground arith))
    | inr e ↦ rw e (go (step env n sized r l))
  ]
    where
      go :
          (s : Step)
          → elim s as (λ _. Option Step) [
            | returns r' chunk ↦ some (returns r' chunk)
            | again r' ↦ read fuel env n sized r' l
            | waits r' ↦ some (waits r')
          ]
            ≡ after_pass fuel s
      go (returns r' chunk) = refl
      go (waits r') = refl
      go (again r') = refl

  read_empty :
      (fuel : ℕ) (r : Reader)
      → n ≡ 0
      → read (suc fuel) env n sized r l
        ≡ some (returns r (record { bytes = []; size = zero_size; error = none }))
  unfolding read
  read_empty fuel r z = rw z refl

  Outcome-shift :
      (r r' : Reader) (o : Option Step)
      → stream l r.cursor ≡ stream l r'.cursor
      → StartEnds l r' n o
      → StartEnds l r n o
  Outcome-shift r r' none e d = tt
  Outcome-shift r r' (some (again r'')) e d = d
  Outcome-shift r r' (some (returns r'' chunk)) e d = (e ∙ d.0, d.1, d.2)
  Outcome-shift r r' (some (waits r'')) e d = (e ∙ d.0, d.1, d.2)

  after_pass-Outcome :
      (fuel : ℕ) (r : Reader) (s : Step)
      → IsReader r l
      → Delivers l r n s
      → ((r' : Reader) → IsReader r' l → StartEnds l r' n (read fuel env n sized r' l))
      → StartEnds l r n (after_pass fuel s)
  unfolding after_pass
  after_pass-Outcome fuel r (returns r' chunk) k d rest = d
  after_pass-Outcome fuel r (waits r') k d rest = (d.0, ap (stream l) d.1 ∙ d.0, d.2)
  after_pass-Outcome fuel r (again r') k d rest =
      Outcome-shift r r' (read fuel env n sized r' l) d.0 (rest r' (again-IsReader r r' k d))

  after_pass_total :
      (fuel : ℕ) (r : Reader) (s : Step)
      → IsReader r l
      → Delivers l r n s
      → l.generation - r.cursor.generation < suc fuel
      → ((r' : Reader)
          → IsReader r' l
          → l.generation - r'.cursor.generation < fuel
          → (t : Step) × (read fuel env n sized r' l ≡ some t))
      → (t : Step) × (after_pass fuel s ≡ some t)
  unfolding after_pass
  after_pass_total fuel r (returns r' chunk) k d h rest = (returns r' chunk, refl)
  after_pass_total fuel r (waits r') k d h rest = (waits r', refl)
  after_pass_total fuel r (again r') k d h rest =
      rest r' (again-IsReader r r' k d) (omega (arith, d.1, d.2))

  read_total_lem :
      (fuel : ℕ) (r : Reader)
      → IsReader r l
      → l.generation - r.cursor.generation < fuel
      → (t : Step) × (read fuel env n sized r l ≡ some t)
  read_total_lem zero r k h = elim h [ ]
  read_total_lem (suc fuel) r k h = elim (ℕ_discrete n 0) [
    | yes z ↦
        (returns r (record { bytes = []; size = zero_size; error = none }), read_empty fuel r z)
    | no z ↦ rw (read-suc fuel r z) (
        after_pass_total fuel r (step env n sized r l) k (step-Delivers env n sized r l v k f) h
          (read_total_lem fuel))
  ]

  read-Outcome :
      (fuel : ℕ) (r : Reader) → IsReader r l → StartEnds l r n (read fuel env n sized r l)
  unfolding read
  read-Outcome zero r k = tt
  read-Outcome (suc fuel) r k = elim (ℕ_discrete n 0) [
    | yes z ↦ rw (read_empty fuel r z) (refl, omega arith, k.position)
    | no z ↦ rw (read-suc fuel r z) (
        after_pass-Outcome fuel r (step env n sized r l) k (step-Delivers env n sized r l v k f)
          (read-Outcome fuel))
  ]

-- A read that returns, on a well-formed log whose files stay within a signed and whose size marks
-- within an unsigned 64-bit offset, hands out the next bytes of the stream, at most as many as
-- the buffer holds, and leaves the reader exactly behind them, whatever error it reports, as long
-- as what the reader remembers of a removed segment is its whole length.
pub read-delivers :
    (fuel n : ℕ) (env : Env) (sized : Bool) (l : Log) (r r' : Reader) (chunk : Chunk)
    → IsLog l
    → MarksFit l.sizes
    → IsReader r l
    → read fuel env n sized r l ≡ some (returns r' chunk)
    → (stream l r.cursor ≡ chunk.bytes ++ stream l r'.cursor)
      × (length chunk.bytes ≤ n)
      × IsPosition l r'.cursor
read-delivers fuel n env sized l r r' chunk v f k e =
    subst (StartEnds l r n) e (read-Outcome env n sized l v f fuel r k)

-- A read of a well-formed log, under the same conditions as one that returns, blocks only while
-- the log is open, and only where the stream has nothing left.
pub read-waits :
    (fuel n : ℕ) (env : Env) (sized : Bool) (l : Log) (r r' : Reader)
    → IsLog l
    → MarksFit l.sizes
    → IsReader r l
    → read fuel env n sized r l ≡ some (waits r')
    → (stream l r.cursor ≡ []) × (stream l r'.cursor ≡ []) × (l.closed ≡ false)
read-waits fuel n env sized l r r' v f k e =
    subst (StartEnds l r n) e (read-Outcome env n sized l v f fuel r k)

-- On a well-formed log, fuel above the number of generations that are left is enough for the loop
-- of a read to end.
pub read_total :
    (fuel n : ℕ) (env : Env) (sized : Bool) (l : Log) (r : Reader)
    → IsLog l
    → MarksFit l.sizes
    → IsReader r l
    → l.generation - r.cursor.generation < fuel
    → (t : Step) × (read fuel env n sized r l ≡ some t)
read_total fuel n env sized l r v f k h = read_total_lem env n sized l v f fuel r k h
