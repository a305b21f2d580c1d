-- ===== src/Session.antt =====
-- process.go and session.go: the state of one local session and what its parts do to it. The
-- terminal emulator is not the repository's own code: it is an interface, and so is what the
-- operating system answers.
pub mod Poll
pub mod Drain
pub mod CopyLoop
pub mod Local
pub mod Start
pub mod Adopt
pub mod Stop
mod Resize
pub mod Follows
mod Replica
mod Settled
mod Leaks
mod AdoptLeaks
mod Signals
mod Examples
use ghostline.Prelude.{
  ℕ, zero, suc, Bool, true, false, not, Option, none, some, List, [], ◌∷◌, ◌++◌, Bytes, ◌≡◌,
  if◌then◌else◌,
}
use ghostline.Prelude.Int.{ℤ, pos, negsuc}
use ghostline.Errors.{Error, Result, ok, err}
use ghostline.Size.{Size}
use ghostline.Output.Log.{Log, WriteAnswer, append}
use ghostline.Migration.{Handoff}

-- The emulator, as the session uses it: `V` is the state of its screen, history and parser.
pub record Emulator (V : Type 0) : Type 0 where
  pub feed : Bytes → V → V
  pub resize : Size → V → V
  pub snapshot : V → Result Bytes
  -- What encodeStateWithRepairLocked may clear before it encodes, and the encoding of the rest.
  pub repair : V → V
  pub encode : V → Result Bytes

-- A parser that stops between any two bytes and goes on from there.
pub record IsStreaming {V : Type 0} (m : Emulator V) : Type 0 where
  pub feed-nil : (v : V) → m.feed [] v ≡ v
  pub feed-append : (a b : Bytes) (v : V) → m.feed (a ++ b) v ≡ m.feed b (m.feed a v)

pub record ExitError : Type 0 where
  pub code : ℤ
  pub signal : Bytes
  pub unknown : Bool

-- What waiting for the child can give, where it is not nil: the state of the child that
-- another server handed over, the child's own status with the name of the signal that ended it,
-- or an error.
pub data WaitError : Type 0 where
  known : ExitError → WaitError
  exited : ℤ → Option Bytes → WaitError
  other : Error → WaitError

unfoldable pub convert_exit : Option WaitError → Option WaitError
convert_exit none = none
convert_exit (some (known exit)) = some (known exit)
convert_exit (some (exited code none)) =
    some (known (record { code = code; signal = []; unknown = false }))
convert_exit (some (exited code (some name))) =
    some (known (record { code = code; signal = name; unknown = false }))
convert_exit (some (other e)) = some (other e)

abbrev pub unknown_exit : WaitError
unknown_exit = known (record { code = negsuc 0; signal = []; unknown = true })

-- sessionState. A session is known to the hub by its identity; `has_master` is `master != nil`,
-- and whether that file is still open stands in the handoff, with the channel `done`.
pub record Session (V : Type 0) : Type 0 where
  pub name : Bytes
  pub identity : ℕ
  pub has_command : Bool
  pub pid : ℤ
  pub has_master : Bool
  pub has_wake : Bool
  pub size : Size
  pub output : Log
  pub terminal : V
  pub wait_error : Option WaitError
  pub reaped : Bool
  pub closed_once : Bool
  pub handoff : Handoff

abbrev pub fed :
    {V : Type 0} → Emulator V → Bytes → Session V → Log × Option Error → Session V × Option Error
fed m chunk s (l, none) = (record s { output = l; terminal = m.feed chunk s.terminal }, none)
fed m chunk s (l, some e) = (record s { output = l }, some e)

-- What the loops do with the bytes of one read: nothing if there are none; else they append
-- them, and feed them to the emulator only if they are recorded.
unfoldable pub absorb :
    {V : Type 0} → Emulator V → List WriteAnswer → Bytes → Session V → Session V × Option Error
absorb m answers [] s = (s, none)
absorb m answers (b ∷ chunk) s = fed m (b ∷ chunk) s (append answers (b ∷ chunk) s.output)
