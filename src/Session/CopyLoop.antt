-- ===== src/Session/CopyLoop.antt =====
-- process.go: copyOutput and copyOutputLoop, as steps from one point of the loop to the next.
use ghostline.Prelude.{
  ℕ, Bool, true, false, not, ◌&&◌, ◌||◌, Option, none, some, List, [], is_some, if◌then◌else◌,
}
use ghostline.Errors.{Error, ok, err, failure}
use ghostline.Output.Log.{close}
use ghostline.Migration.{Handoff, MigrationTicket, mark_stable, mark_stopped, choose, with_ticket}
use ghostline.Session.{Emulator, Session, WaitError, unknown_exit, absorb}
use ghostline.Session.Poll.{Polled, wait_readable, wait_output_or_migration}
use ghostline.Session.Drain.{Round, drain_output}

-- Where the loop stands: at its top, waiting for the decision on a ticket with the error of the
-- drain, or behind a `return`.
pub data Point : Type 0 where
  at_top : Point
  awaits : ℕ → Option Error → Point
  returned : Bool → Point

-- What happens to the loop in one pass: the first wait, then the poll under the output lock and
-- the read, or the rounds of a drain.
pub record Pass : Type 0 where
  pub first : Polled
  pub round : Round
  pub rounds : List Round

abbrev pub is_undecided : MigrationTicket → Bool
is_undecided t = t.alive && not (is_some t.decision)

-- The ticket that stops the loop, if there is one.
abbrev pub pausing : Handoff → Option ℕ
pausing h = elim h.migration [
  | none ↦ none
  | some n ↦ if is_undecided (h.tickets n) then some n else none
]

abbrev pub change_ticket :
    {V : Type 0} → (MigrationTicket → MigrationTicket) → ℕ → Session V → Session V
change_ticket f n s = record s { handoff = with_ticket n (f (s.handoff.tickets n)) s.handoff }

module _ {V : Type 0} (m : Emulator V) where
  abbrev pub paused : ℕ → Session V × Option Error → Session V × Point
  paused n (s, e) = (change_ticket (mark_stable e) n s, awaits n e)

  abbrev pub after_read : Option Error → Session V × Option Error → Session V × Point
  after_read read_error (s, e) =
      (s, (if is_some e || is_some read_error then returned false else at_top))

  -- The read under the output lock.
  unfoldable pub read_chunk : Round → Session V → Session V × Point
  read_chunk r s = elim (wait_readable s.has_master r.polled) [
    | err e ↦ (s, returned false)
    | ok false ↦ (s, at_top)
    | ok true ↦ after_read r.read_error (absorb m r.writes r.chunk s)
  ]

  unfoldable pub copy_top : Pass → Session V → Session V × Point
  copy_top p s = elim (pausing s.handoff) [
    | some n ↦ paused n (drain_output m p.rounds s)
    | none ↦ elim (wait_output_or_migration s.has_master s.has_wake p.first) [
      | none ↦ (s, at_top)
      | some (err e) ↦ (s, returned false)
      | some (ok false) ↦ (s, at_top)
      | some (ok true) ↦ read_chunk p.round s
    ]
  ]

  -- `commit := <-ticket.decide` and what is behind it.
  unfoldable pub copy_decided : ℕ → Option Error → Session V → Session V × Point
  copy_decided n e s = elim (s.handoff.tickets n).decision [
    | none ↦ (s, awaits n e)
    | some commit ↦ (change_ticket mark_stopped n s, returned (not (is_some e || commit)))
  ]

  -- copyOutput calls the loop again where it returned true.
  unfoldable pub copy_step : Pass → Session V → Point → Session V × Point
  copy_step p s at_top = copy_top p s
  copy_step p s (awaits n e) = copy_decided n e s
  copy_step p s (returned true) = (s, at_top)
  copy_step p s (returned false) = (s, returned false)

-- copyOutput behind its loop: the exit status. `waited` is what waiting for the child gives.
unfoldable pub record_exit : {V : Type 0} → Option WaitError → Session V → Session V
record_exit waited s =
    if s.handoff.migrated
    then record s { wait_error = some unknown_exit; reaped = true }
    else if s.has_command
    then record s { wait_error = waited; reaped = true }
    else if s.has_master
    then record s { wait_error = some unknown_exit; reaped = true }
    else record s { reaped = true }

abbrev pub session_stopped : Error
session_stopped = failure []

-- The deferred call that settles a ticket which nobody has decided.
abbrev pub settle_found : {V : Type 0} → Option ℕ → Session V → Session V
settle_found none s = s
settle_found (some n) s =
    if is_some (s.handoff.tickets n).decision
    then s
    else change_ticket (λ t. mark_stopped (choose false (mark_stable (some session_stopped) t))) n s

unfoldable pub settle : {V : Type 0} → Session V → Session V
settle s = settle_found s.handoff.migration s

-- The other deferred calls, the last one first: the master, the log, and `done`.
unfoldable pub finish_copy : {V : Type 0} → Session V → Session V
finish_copy s = record s {
  output = close none s.output;
  handoff = record s.handoff {
    master_open = s.handoff.master_open && (s.handoff.migrated || not s.has_master);
    session_done = true;
  };
}

-- copyOutput once its loop is over.
unfoldable pub end_copy : {V : Type 0} → Option WaitError → Session V → Session V
end_copy waited s = finish_copy (settle (record_exit waited s))
