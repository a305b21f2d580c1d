-- ===== src/Session/Poll.antt =====
-- process.go: waiting for a file to be readable. The system's poll may be interrupted any number
-- of times before it answers.
use ghostline.Prelude.{ℕ, zero, suc, Bool, false, not, Option, none, some, [], if◌then◌else◌}
use ghostline.Errors.{Error, Result, ok, err, failure}

-- `events invalid ready`: POLLNVAL, and one of POLLIN, POLLHUP and POLLERR, on the master;
-- `woken`: one of the latter on the wake pipe, where that is polled too.
pub data PollAnswer : Type 0 where
  poll_failed : Error → PollAnswer
  no_events : PollAnswer
  woken : PollAnswer
  events : Bool → Bool → PollAnswer

pub record Polled : Type 0 where
  pub interrupts : ℕ  -- EINTR
  pub answer : PollAnswer

abbrev pub ready_of : Bool → Bool → Result Bool
ready_of invalid ready = if invalid then err (failure []) else ok ready

-- The loop of waitReadable.
unfoldable pub poll_readable : ℕ → PollAnswer → Result Bool
poll_readable (suc n) answer = poll_readable n answer
poll_readable zero (poll_failed e) = err e
poll_readable zero no_events = ok false
poll_readable zero woken = ok false
poll_readable zero (events invalid ready) = ready_of invalid ready

unfoldable pub wait_readable : Bool → Polled → Result Bool
wait_readable has_file p =
    if not has_file then err (failure []) else poll_readable p.interrupts p.answer

-- The loop of waitOutputOrMigration, which has no time limit: without an event it waits on.
unfoldable pub poll_both : ℕ → PollAnswer → Option (Result Bool)
poll_both (suc n) answer = poll_both n answer
poll_both zero (poll_failed e) = some (err e)
poll_both zero no_events = none
poll_both zero woken = some (ok false)
poll_both zero (events invalid ready) = some (ready_of invalid ready)

unfoldable pub wait_output_or_migration : Bool → Bool → Polled → Option (Result Bool)
wait_output_or_migration has_master has_wake p =
    if not has_master
    then some (err (failure []))
    else if not has_wake
    then some (wait_readable has_master p)
    else poll_both p.interrupts p.answer
