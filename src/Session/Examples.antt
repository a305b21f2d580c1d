-- ===== src/Session/Examples.antt =====
-- Tests and witnesses for a session, with an emulator that keeps all it is fed.
use ghostline.Prelude.{
  ℕ, ◌+◌, ◌≤◌, ◌≡◌, ◌⊎◌, inl, refl, sym, ap, ◌∙◌, true, false, none, some, [], ◌∷◌, ◌++◌, Bytes,
  arith, append_assoc, append-nil,
}
use ghostline.Prelude.Int.{pos}
use ghostline.Prelude.Maps.{lookup}
use ghostline.Prelude.Names.{find}
use ghostline.Errors.{Error, os_error, failure, ok, err}
use ghostline.Size.{Size, IsValidSize, resolve, validate}
use ghostline.Hub.{Hub}
use ghostline.Output.Log.{active_segment, append, cursor, end_cursor, write_full}
use ghostline.Output.Log.Stream.{stream, IsPosition}
use ghostline.Output.Log.Examples.{
  append_whole, append_generation, two_segments, two_segments-IsLog, at', wide,
}
use ghostline.Output.Marks.Order.{size_at}
use ghostline.Output.Marks.Updates.{MarksTo, mark_size-end_cursor}
use ghostline.Migration.{Handoff, release_migration, decide_migration, ticket_failed}
use ghostline.Session.{Emulator, IsStreaming, Session, absorb}
use ghostline.Session.Poll.{Polled, events, wait_readable, poll_readable}
use ghostline.Session.Drain.{Round, drain_resize_output, drain_resize_from}
use ghostline.Session.CopyLoop.{Pass, at_top, copy_step, end_copy}
use ghostline.Session.Local.{
  AtomicState, SignalAnswers, atomic_state, rotate_output, resize_session, check_current, current,
  signal_session,
}
use ghostline.Session.Replica.{OutputSteps, here, copies, rotates, atomic_state-replica}
use ghostline.Session.Resize.{resize_session-size_at}
use ghostline.Session.Settled.{end_copy-refuses}
use ghostline.Session.Signals.{DeliveredBy, signal_session_outcome}
use ghostline.Session.Start.{Held, CreateAnswer, StartAnswers, new_handoff, start_session}
use ghostline.Session.Leaks.{with_started, start_session-held}
use ghostline.Session.Adopt.{Adopted, AdoptAnswers, adopt_state, adopt_lossy_state}
use ghostline.Session.AdoptLeaks.{IsEither, with_adopted, adoption-held}

abbrev keeper : Emulator Bytes
keeper = record {
  feed = λ text shown. shown ++ text;
  resize = λ size shown. shown;
  snapshot = λ shown. ok shown;
  repair = λ shown. shown;
  encode = λ shown. ok shown;
}

keeper-IsStreaming : IsStreaming keeper
keeper-IsStreaming = record {
  feed-nil = λ v. append-nil v;
  feed-append = λ a b v. sym (append_assoc v a b);
}

abbrev name : Bytes
name = b's' ∷ []

abbrev session : Session Bytes
session = record {
  name = name;
  identity = 4;
  has_command = true;
  pid = pos 77;
  has_master = true;
  has_wake = true;
  size = wide;
  output = two_segments;
  terminal = 7 ∷ 8 ∷ 9 ∷ 5 ∷ [];
  wait_error = none;
  reaped = false;
  closed_once = false;
  handoff = new_handoff true false;
}

abbrev hub : Hub
hub = record {
  default_size = wide;
  scrollback = 1000;
  sessions = (name, 4) ∷ [];
  pending = [];
  is_closed = false;
}

abbrev ready : Polled
ready = record { interrupts = 1; answer = events false true }

abbrev two_bytes : Round
two_bytes = record { polled = ready; chunk = 1 ∷ 2 ∷ []; read_error = none; writes = [] }

abbrev reads : Pass
reads = record { first = ready; round = two_bytes; rounds = [] }

abbrev captured : AtomicState
captured = record { payload = 7 ∷ 8 ∷ 9 ∷ 5 ∷ []; cursor = at' 2 1; size = wide }

capture_runs : atomic_state keeper false hub session ≡ (session, ok captured)
unfolding atomic_state check_current current find cursor end_cursor lookup
capture_runs = refl

abbrev read_once : Session Bytes
read_once = (copy_step keeper reads session at_top).0

read_fits : (active_segment session.output).size + 2 ≤ 9223372036854775807
unfolding lookup
read_fits = omega arith

drain_fits : (active_segment session.output).size + 0 ≤ 9223372036854775807
unfolding lookup
drain_fits = omega arith

abbrev read_and_rotated : Session Bytes
read_and_rotated = (rotate_output false none read_once).0

abbrev two_steps : OutputSteps keeper session read_and_rotated
two_steps = rotates (copies here reads at_top read_fits drain_fits) false none

-- A read and a rotation after the capture.
atomic_state-replica_example :
    (keeper.encode (keeper.repair session.terminal) ≡ ok captured.payload)
    × IsPosition read_and_rotated.output captured.cursor
    × (read_and_rotated.terminal
        ≡ keeper.feed
            (stream read_and_rotated.output captured.cursor)
            (keeper.repair session.terminal))
atomic_state-replica_example =
    atomic_state-replica keeper keeper-IsStreaming false hub session session read_and_rotated
      captured two_segments-IsLog capture_runs two_steps

abbrev narrow : Size
narrow = record { columns = pos 80; rows = pos 24 }

abbrev resized_session : Session Bytes
resized_session = (resize_session keeper false hub (two_bytes ∷ []) none narrow session).0

resize_fits : (active_segment session.output).size + 2 ≤ 9223372036854775807
unfolding lookup
resize_fits = omega arith

end_of_session : end_cursor session.output ≡ at' 2 1
unfolding end_cursor lookup
end_of_session = refl

-- The drain takes two bytes before the size changes.
resize_runs : (resize_session keeper false hub (two_bytes ∷ []) none narrow session).1 ≡ none
unfolding resize_session check_current current find resolve validate drain_resize_output
    drain_resize_from absorb wait_readable poll_readable
resize_runs = rw append_whole refl

end_of_resized : (end_cursor resized_session.output).generation ≡ 2
unfolding resize_session check_current current find resolve validate drain_resize_output
    drain_resize_from absorb wait_readable poll_readable end_cursor append write_full
end_of_resized = rw append_whole (
    ap (λ z. z.generation) (mark_size-end_cursor narrow (append [] (1 ∷ 2 ∷ []) two_segments).0)
    ∙ append_generation)

resize_session-size_at_example :
    IsValidSize narrow
    × (resized_session.size ≡ narrow)
    × (size_at resized_session.output.sizes (end_cursor resized_session.output) ≡ narrow)
    × (size_at resized_session.output.sizes (at' 1 2) ≡ size_at session.output.sizes (at' 1 2))
    × MarksTo (end_cursor resized_session.output) resized_session.output.sizes
resize_session-size_at_example =
    resize_session-size_at keeper false hub (two_bytes ∷ []) none narrow (at' 1 2) session
      resized_session resize_fits two_segments-IsLog refl (rw end_of_session (omega arith))
      (ap (λ e. (resized_session, e)) resize_runs) (inl (omega (arith, end_of_resized)))

-- The child ends while another server waits for its output.
abbrev asked : Session Bytes
asked = record session {
  handoff = record session.handoff { migration = some 0; gate = true; next_ticket = 1 };
}

end_copy-refuses_example :
    (h : Handoff) × (e : Error) × (release_migration 0 true
        (decide_migration 0 true (end_copy none asked).handoff)
      ≡ some (h, some (ticket_failed e)))
    × (h.migrated ≡ false)
    × (h.migration ≡ none)
    × (h.gate ≡ false)
end_copy-refuses_example = end_copy-refuses none asked 0 true refl refl

abbrev nothing_held : Held
nothing_held = record { terminals = 0; logs = 0; directories = 0; wake_ends = 0; masters = 0 }

abbrev created : CreateAnswer
created = record { made = ok name; opened = ok 0; listed = ok [] }

-- The directory of the new log cannot be read.
abbrev start_answers : StartAnswers Bytes
start_answers = record {
  new_terminal = ok [];
  created = record created { listed = err (os_error 5) };
  pipe = none;
  started = ok (pos 78);
}

start_session-held_example :
    let r = start_session name 5 wide false start_answers nothing_held in
    ((e : Error) × (r.1 ≡ err e) × (r.0 ≡ nothing_held))
    ⊎ ((s : Session Bytes) × (r.1 ≡ ok s) × (r.0 ≡ with_started nothing_held))
start_session-held_example = start_session-held name 5 wide start_answers false nothing_held

abbrev adopted : Adopted
adopted = record {
  name = name;
  has_master = true;
  size = wide;
  directory = b'd' ∷ [];
  generation = 0;
  pid = pos 77;
  exit = none;
}

abbrev adopt_answers : AdoptAnswers Bytes
adopt_answers = record {
  opened = ok 0;
  listed = ok [];
  files = λ g. [];
  created = created;
  new_terminal = ok [];
  restored = err (failure []);
  pipe = none;
}

adoption-held_example :
    IsEither nothing_held
      (with_adopted true 0 nothing_held)
      (adopt_state 5 adopt_answers adopted nothing_held)
    × ((made : ℕ) × (made ≤ 1)
        × IsEither nothing_held
            (with_adopted true made nothing_held)
            (adopt_lossy_state 5 adopt_answers adopted keeper (7 ∷ []) nothing_held))
adoption-held_example = adoption-held 5 adopt_answers adopted keeper (7 ∷ []) nothing_held

-- A system without the request: the group gets the signal.
abbrev old_system : SignalAnswers
old_system = record { ioctl = some (os_error 25); group = ok (pos 77); kill = none }

signal_session_outcome_example :
    DeliveredBy old_system (signal_session false hub old_system session)
signal_session_outcome_example = signal_session_outcome false hub old_system session
