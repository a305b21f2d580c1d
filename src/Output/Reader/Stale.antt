-- ===== src/Output/Reader/Stale.antt =====
-- A reader whose segment was removed while it was being read.
use ghostline.Prelude.{
  ℕ, suc, ◌+◌, ◌-◌, ◌≤◌, ◌<◌, ◌≡◌, ◌⊎◌, inl, inr, refl, Bool, true, false, none, some, ◌++◌, Bytes,
  ltb, length, drop, arith, Bool-cases, length-drop,
}
use ghostline.Prelude.Maps.{lookup}
use ghostline.Errors.{cursor_expired}
use ghostline.Output.Cursor.{max_uint64}
use ghostline.Output.Log.{Log, start_of}
use ghostline.Output.Log.Stream.{contents, stream_of, stream, joined}
use ghostline.Output.Reader.{
  Reader, Env, returns, again, stopped, fails_with, is_file, advance_to, step_open, step_segment,
  step,
}

-- The segment is gone from the index: the read fails, or goes on with the file that is open.
pub gone_cases :
    (env : Env) (n : ℕ) (sized : Bool) (r : Reader) (l : Log)
    → ((r' : Reader) × (step_segment env n sized none r l ≡ returns r' (fails_with cursor_expired)))
      ⊎ ((is_file r.file r.cursor.generation ≡ true)
          × (r.cursor.generation < l.generation)
          × (step_segment env n sized none r l
              ≡ step_open env n sized (record r { complete = true }) l))
unfolding step_segment
gone_cases env n sized r l = elim (Bool-cases (is_file r.file r.cursor.generation)) [
  | inr b ↦ inl (r, ground arith)
  | inl b ↦ elim (Bool-cases (ltb r.cursor.generation l.generation)) [
    | inl c ↦ inr (b, ground arith, ground arith)
    | inr c ↦ inl (record r { complete = false }, ground arith)
  ]
]

held :
    (env : Env) (n : ℕ) (sized : Bool) (r : Reader) (l : Log)
    → r.file ≡ some r.cursor.generation
    → r.cursor.generation < l.generation
    → step_segment env n sized none r l ≡ step_open env n sized (record r { complete = true }) l
unfolding step_segment
held env n sized r l f b = ground arith

passes_over :
    (env : Env) (n : ℕ) (r : Reader) (l : Log)
    → r.complete ≡ true
    → r.cursor.generation < max_uint64
    → r.file_limit ≤ r.cursor.offset
    → step_open env n false r l
      ≡ again (record r { file = none; cursor = start_of (r.cursor.generation + 1) })
unfolding step_open advance_to
passes_over env n r l c f h = ground arith

goes_on :
    (env : Env) (n : ℕ) (r : Reader) (l : Log)
    → stopped env r ≡ none
    → lookup r.cursor.generation l.segments ≡ none
    → r.file ≡ some r.cursor.generation
    → r.cursor.generation < l.generation
    → l.generation ≤ max_uint64
    → r.file_limit ≤ r.cursor.offset
    → step env n false r l
      ≡ again
          (record r { complete = true; file = none; cursor = start_of (r.cursor.generation + 1) })
unfolding step
goes_on env n r l live gone open' before fits limit =
    ground (arith, held env n false r l, passes_over env n (record r { complete = true }) l)

-- A reader that waits at a limit short of its removed segment goes on to the next generation, and
-- the rest of the file that it holds open is passed over without an error.
pub step_stale :
    (env : Env) (n : ℕ) (r : Reader) (l : Log)
    → stopped env r ≡ none
    → lookup r.cursor.generation l.segments ≡ none
    → r.file ≡ some r.cursor.generation
    → r.cursor.generation < l.generation
    → l.generation ≤ max_uint64
    → r.file_limit ≤ r.cursor.offset
    → r.cursor.offset < length (contents l r.cursor.generation)
    → (r' : Reader) × (missed : Bytes) × (step env n false r l ≡ again r')
      × (r'.cursor ≡ start_of (r.cursor.generation + 1))
      × (0 < length missed)
      × (stream l r.cursor ≡ missed ++ stream l r'.cursor)
unfolding stream_of joined
step_stale env n r l live gone open' before fits limit more = (
  record r { complete = true; file = none; cursor = start_of (r.cursor.generation + 1) },
  drop r.cursor.offset (contents l r.cursor.generation),
  goes_on env n r l live gone open' before fits limit,
  refl,
  omega (arith, length-drop r.cursor.offset (contents l r.cursor.generation)),
  (let e : l.generation - r.cursor.generation ≡ suc (l.generation - (r.cursor.generation + 1)) =
        omega arith in
      rw e refl),
)
