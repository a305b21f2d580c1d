-- ===== src/Session/Drain.antt =====
-- process.go: drainOutput and drainResizeOutput, which take what can be read without waiting, up
-- to a budget and a time limit. Each entry of the list is one round before the time is up; where
-- the list ends, it is.
use ghostline.Prelude.{
  ℕ, ◌+◌, true, false, not, ◌||◌, Option, none, some, List, [], ◌∷◌, Bytes, length, ltb, leb, ◌==◌,
  is_some, if◌then◌else◌,
}
use ghostline.Errors.{Error, ok, err}
use ghostline.Output.Log.{WriteAnswer}
use ghostline.Session.{Emulator, Session, absorb}
use ghostline.Session.Poll.{Polled, wait_readable}

-- What a read of the master gives; the bytes may come with an error.
pub record Round : Type 0 where
  pub polled : Polled
  pub chunk : Bytes
  pub read_error : Option Error
  pub writes : List WriteAnswer

abbrev pub migration_drain_budget : ℕ
migration_drain_budget = 8388608

abbrev pub resize_drain_budget : ℕ
resize_drain_budget = 1048576

abbrev pub buffer_size : ℕ
buffer_size = 32768

module _ {V : Type 0} (m : Emulator V) where
  -- drainOutput with `drained` bytes taken.
  unfoldable pub drain_output_from : ℕ → List Round → Session V → Session V × Option Error
  drain_output_from drained [] s = (s, none)
  drain_output_from drained (r ∷ rounds) s =
      let (s', e) = absorb m r.writes r.chunk s in
      let rest = drain_output_from (drained + length r.chunk) rounds s' in
      if leb migration_drain_budget drained
      then (s, none)
      else elim (wait_readable s.has_master r.polled) [
        | err cause ↦ (s, some cause)
        | ok false ↦ (s, none)
        | ok true ↦ elim e [
          | some failed ↦ (s', some failed)
          | none ↦ elim r.read_error [ some failed ↦ (s', some failed) | none ↦ rest ]
        ]
      ]

  unfoldable pub drain_output : List Round → Session V → Session V × Option Error
  drain_output rounds s = drain_output_from 0 rounds s

  -- The loop of drainResizeOutput with `drained` bytes taken.
  unfoldable pub drain_resize_from : ℕ → List Round → Session V → Session V × Option Error
  drain_resize_from drained [] s = (s, none)
  drain_resize_from drained (r ∷ rounds) s =
      let (s', e) = absorb m r.writes r.chunk s in
      let rest = drain_resize_from (drained + length r.chunk) rounds s' in
      if not (ltb drained resize_drain_budget)
      then (s, none)
      else elim (wait_readable s.has_master r.polled) [
        | err cause ↦ (s, none)
        | ok false ↦ (s, none)
        | ok true ↦ elim e [
          | some failed ↦ (s', some failed)
          | none ↦ if is_some r.read_error || (length r.chunk == 0) then (s', none) else rest
        ]
      ]

  unfoldable pub drain_resize_output : List Round → Session V → Session V × Option Error
  drain_resize_output rounds s =
      if not s.has_master then (s, none) else drain_resize_from 0 rounds s
