-- ===== src/Session/Stop.antt =====
-- process.go and session.go: how a session's process is ended and waited for. What is sent to the
-- process group stands in a list of calls; how long the code waits is the caller's answer.
use ghostline.Prelude.{
  Bool, true, not, ◌&&◌, ◌||◌, Option, none, some, List, [], ◌∷◌, ◌++◌, if◌then◌else◌,
}
use ghostline.Prelude.Int.{ℤ, nonpositive}
use ghostline.Errors.{Error, failure, canceled}
use ghostline.Hub.{Hub, remove}
use ghostline.Output.Log.{close}
use ghostline.Session.{Session, WaitError}
use ghostline.Session.Local.{current}

pub data ProcessCall : Type 0 where
  closes_master : ProcessCall
  sends_hangup : ℤ → ProcessCall  -- to the process group of this leader
  sends_kill : ℤ → ProcessCall

-- waitSessionCommand: `in_time` tells whether the child ends within the grace period, and
-- `waited` what waiting for it gives.
unfoldable pub wait_session_command :
    {V : Type 0} → Bool → Option WaitError → Session V → List ProcessCall × Option WaitError
wait_session_command in_time waited s = elim s.output.err [
  | none ↦ ([], waited)
  | some e ↦
      (closes_master ∷ sends_hangup s.pid ∷ (if in_time then [] else sends_kill s.pid ∷ []), waited)
]

-- sessionState.close, which acts once.
unfoldable pub close_session : {V : Type 0} → Session V → Session V
close_session s = if s.closed_once then s else record s {
  closed_once = true;
  output = close none s.output;
  handoff = record s.handoff { master_open = s.handoff.master_open && not s.has_master };
}

-- A call to the group of the session, if it has a process.
abbrev pub to_process : {V : Type 0} → (ℤ → ProcessCall) → Session V → List ProcessCall
to_process call s = if s.has_command || not (nonpositive s.pid) then call s.pid ∷ [] else []

-- terminate: whether the child was reaped in the grace period, and in the one after the kill.
unfoldable pub terminate :
    {V : Type 0} → Bool → Bool → Session V → Session V × List ProcessCall × Option Error
unfolding close_session
terminate in_grace in_wait s =
    if s.handoff.session_done
    then (close_session s, [], none)
    else if in_grace
    then (close_session s, to_process sends_hangup s, none)
    else (
      close_session s,
      to_process sends_hangup s ++ to_process sends_kill s,
      (if in_wait then none else some (failure [])),
    )

abbrev pub untouched :
    {V : Type 0} → Option Error → Session V → Session V × List ProcessCall × Option Error
untouched e s = (s, [], e)

-- localSession.terminate
unfoldable pub terminate_session :
    {V : Type 0}
    → Bool
    → Hub
    → Bool
    → Bool
    → Session V
    → Session V × List ProcessCall × Option Error
unfolding terminate
terminate_session context_done h in_grace in_wait s =
    if context_done
    then untouched (some canceled) s
    else if not (current h s)
    then untouched none s
    else terminate in_grace in_wait s

-- The log of a deleted session is closed too; its directory goes with it.
abbrev pub discard_output :
    {V : Type 0}
    → Session V × List ProcessCall × Option Error
    → Session V × List ProcessCall × Option Error
discard_output (s, calls, e) = (record s { output = close none s.output }, calls, e)

-- localSession.delete
unfoldable pub delete_session :
    {V : Type 0}
    → Bool
    → Hub
    → Bool
    → Bool
    → Session V
    → Hub × (Session V × List ProcessCall × Option Error)
unfolding terminate
delete_session context_done h in_grace in_wait s =
    if context_done
    then (h, untouched (some canceled) s)
    else if not (current h s)
    then (h, untouched none s)
    else (remove s.name h, discard_output (terminate in_grace in_wait s))
