-- ===== src/Session/Local.antt =====
-- session.go, the type `localSession`: the calls on a session of this process. Each is one step,
-- since it holds the session's locks; `context_done` says whether its context was, and the hub
-- whether the session is still the one of its name.
use ghostline.Prelude.{
  ℕ, zero, suc, Bool, true, false, not, ◌&&◌, ◌||◌, Option, none, some, List, ◌∷◌, Bytes, ◌==◌,
  if◌then◌else◌,
}
use ghostline.Prelude.Int.{ℤ, pos, negsuc, nonpositive}
use ghostline.Prelude.Names.{find}
use ghostline.Errors.{
  Error, session_closed, invalid_signal, process_done, canceled, os_error, Result, ok, err, ◌>>=◌,
  ◌>>◌,
}
use ghostline.Size.{Size, zero_size, resolve}
use ghostline.Hub.{Hub}
use ghostline.Output.Cursor.{Cursor}
use ghostline.Output.Log.{WriteAnswer, write_full, cursor, rotate, prune}
use ghostline.Output.Marks.{mark_size}
use ghostline.Output.Reader.{Reader, open_reader}
use ghostline.Session.{Emulator, Session, WaitError, ExitError, known, exited, other, convert_exit}
use ghostline.Session.Drain.{Round, drain_resize_output}

-- What os.Signal can be: nil, a syscall.Signal, or something else.
pub data OsSignal : Type 0 where
  nil : OsSignal
  native : ℤ → OsSignal
  foreign : OsSignal

abbrev pub positive : ℤ → Result ℕ
positive (pos zero) = err invalid_signal
positive (pos (suc n)) = ok (suc n)
positive (negsuc n) = err invalid_signal

unfoldable pub normalize_signal : OsSignal → Result ℕ
normalize_signal nil = err invalid_signal
normalize_signal foreign = err invalid_signal
normalize_signal (native n) = positive n

pub record Status : Type 0 where
  pub alive : Bool
  pub exit : Option ExitError

pub record Checkpoint : Type 0 where
  pub replay : Bytes
  pub cursor : Cursor

pub record AtomicState : Type 0 where
  pub payload : Bytes
  pub cursor : Cursor
  pub size : Size

abbrev pub same_session : Option ℕ → ℕ → Bool
same_session none n = false
same_session (some m) n = m == n

-- current
unfoldable pub current : {V : Type 0} → Hub → Session V → Bool
current h s = same_session (find s.name h.sessions) s.identity

-- The tests with which most calls begin.
unfoldable pub check_current : {V : Type 0} → Bool → Hub → Session V → Result (Unit {0})
unfolding current
check_current context_done h s =
    if context_done then err canceled else if not (current h s) then err session_closed else ok tt

unfoldable pub alive : {V : Type 0} → Hub → Session V → Bool
unfolding current
alive h s = current h s && not s.handoff.session_done

-- The type assertion on the exit error.
abbrev pub exit_of : Option WaitError → Option ExitError
exit_of none = none
exit_of (some (known exit)) = some exit
exit_of (some (exited code signal)) = none
exit_of (some (other e)) = none

unfoldable pub status : {V : Type 0} → Bool → Hub → Session V → Result Status
unfolding alive convert_exit
status context_done h s = if context_done then err canceled else elim s.output.err [
  | some e ↦ err e
  | none ↦ ok (
      if alive h s
      then record { alive = true; exit = none }
      else record { alive = false; exit = exit_of (convert_exit s.wait_error) })
]

-- wait: `none` while it waits, else the two errors that it joins. Where the context is done too,
-- `select` may take either case.
unfoldable pub wait :
    {V : Type 0} → Bool → Session V → Option (Result ((Option Error) × (Option WaitError)))
unfolding convert_exit
wait takes_context s =
    if takes_context
    then some (err canceled)
    else if s.handoff.session_done
    then some (ok (s.output.err, convert_exit s.wait_error))
    else none

unfoldable pub size_of : {V : Type 0} → Bool → Hub → Session V → Result Size
unfolding check_current
size_of context_done h s = check_current context_done h s >> ok s.size

-- What the system answers to the calls of signal.
pub record SignalAnswers : Type 0 where
  pub ioctl : Option Error
  pub group : Result ℤ
  pub kill : Option Error

-- Who got the signal.
pub data Target : Type 0 where
  foreground_group : Target
  process_group : ℕ → Target

abbrev pub errno_einval : ℕ
errno_einval = 22

abbrev pub errno_enotty : ℕ
errno_enotty = 25

abbrev pub errno_esrch : ℕ
errno_esrch = 3

abbrev pub errno_eio : ℕ
errno_eio = 5

-- errors.Is(err, errno)
abbrev pub is_errno : ℕ → Error → Bool
is_errno n (os_error m) = m == n
is_errno n e = false

abbrev pub or_done : Error → Error
or_done e = if is_errno errno_esrch e then process_done else e

abbrev pub kill_group : SignalAnswers → ℤ → Result Target
kill_group a (negsuc n) = err process_done
kill_group a (pos zero) = err process_done
kill_group a (pos (suc n)) = elim a.kill [
  | none ↦ ok (process_group (suc n))
  | some e ↦ err (or_done e)
]

abbrev pub signal_group : SignalAnswers → Result Target
signal_group a = elim a.group [ err e ↦ err (or_done e) | ok group ↦ kill_group a group ]

-- The ioctl, and what follows where the system does not have it.
unfoldable pub deliver_signal : SignalAnswers → Result Target
deliver_signal a = elim a.ioctl [
  | none ↦ ok foreground_group
  | some e ↦
      if is_errno errno_enotty e || is_errno errno_einval e
      then signal_group a
      else if is_errno errno_esrch e || is_errno errno_eio e
      then err process_done
      else err e
]

-- localSession.signal
unfoldable pub signal_session :
    {V : Type 0} → Bool → Hub → SignalAnswers → Session V → Result Target
unfolding check_current deliver_signal
signal_session context_done h a s =
    check_current context_done h s
    >> (if s.handoff.session_done || nonpositive s.pid then err process_done else deliver_signal a)

-- writeInput: the bytes that reached the PTY.
unfoldable pub write_input :
    {V : Type 0} → Bool → Hub → List WriteAnswer → Bytes → Session V → Result (Bytes × Option Error)
unfolding check_current
write_input context_done h answers input s =
    check_current context_done h s >> ok (write_full answers input)

module _ {V : Type 0} (m : Emulator V) where
  abbrev pub resized : Option Error → Size → Session V → Session V × Option Error
  resized (some e) new_size s = (record s { terminal = m.resize new_size s.terminal }, some e)
  resized none new_size s = (
    record s {
      terminal = m.resize new_size s.terminal;
      size = new_size;
      output = mark_size new_size s.output;
    },
    none,
  )

  abbrev pub after_drain : Option Error → Size → Session V × Option Error → Session V × Option Error
  after_drain set_size new_size (s, some e) = (s, some e)
  after_drain set_size new_size (s, none) = resized set_size new_size s

  -- localSession.resize: `set_size` is the error of setting the size of the PTY.
  unfoldable pub resize_session :
      Bool → Hub → List Round → Option Error → Size → Session V → Session V × Option Error
  unfolding check_current
  resize_session context_done h rounds set_size new_size s =
      if context_done then (s, some canceled) else elim (resolve new_size zero_size) [
        | err e ↦ (s, some e)
        | ok _ ↦
            if not (current h s)
            then (s, some session_closed)
            else after_drain set_size new_size (drain_resize_output m rounds s)
      ]

  -- captureLocked: ESC [3J ESC [2J ESC [H and the snapshot.
  unfoldable pub capture : Session V → Result Bytes
  capture s = elim (m.snapshot s.terminal) [
    | err e ↦ err e
    | ok snapshot ↦
        ok (27 ∷ b'[' ∷ b'3' ∷ b'J' ∷ 27 ∷ b'[' ∷ b'2' ∷ b'J' ∷ 27 ∷ b'[' ∷ b'H' ∷ snapshot)
  ]

  unfoldable pub replay_session : Bool → Hub → Session V → Result Bytes
  unfolding check_current
  replay_session context_done h s = check_current context_done h s >> capture s

  unfoldable pub checkpoint : Bool → Hub → Session V → Result Checkpoint
  unfolding check_current capture
  checkpoint context_done h s =
      check_current context_done h s
      >> (capture s >>= λ replay.
          cursor s.output >>= λ c. ok (record { replay = replay; cursor = c }))

  -- The emulator is repaired once the tests have passed, also where the call then fails.
  abbrev pub captured_state : Session V → Result AtomicState
  captured_state s = m.encode s.terminal >>= λ payload.
      cursor s.output >>= λ c. ok (record { payload = payload; cursor = c; size = s.size })

  abbrev pub encode_atomic : Session V → Result (Unit {0}) → Session V × Result AtomicState
  encode_atomic s (err e) = (s, err e)
  encode_atomic s (ok checked) =
      let repaired = record s { terminal = m.repair s.terminal } in
      (repaired, captured_state repaired)

  unfoldable pub atomic_state : Bool → Hub → Session V → Session V × Result AtomicState
  unfolding check_current
  atomic_state context_done h s = encode_atomic s (check_current context_done h s)

unfoldable pub output_from : {V : Type 0} → Bool → Option Error → Cursor → Session V → Result Reader
output_from context_done opened from s =
    if context_done then err canceled else open_reader opened context_done from s.output

unfoldable pub output_cursor : {V : Type 0} → Bool → Hub → Session V → Result Cursor
unfolding check_current
output_cursor context_done h s = check_current context_done h s >> cursor s.output

-- rotateOutput, which does not ask the hub.
unfoldable pub rotate_output :
    {V : Type 0} → Bool → Option Error → Session V → Session V × Result Cursor
rotate_output context_done created s =
    let (l, result) = rotate created s.output in
    if context_done then (s, err canceled) else (record s { output = l }, result)

-- pruneOutput, which does not ask the hub either.
unfoldable pub prune_output :
    {V : Type 0} → Bool → (ℕ → Option Error) → Cursor → Session V → Session V × Option Error
prune_output context_done removed before s =
    let (l, e) = prune removed before s.output in
    if context_done then (s, some canceled) else (record s { output = l }, e)
