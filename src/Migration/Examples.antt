-- ===== src/Migration/Examples.antt =====
-- process.go: a handoff that fails.
use ghostline.Prelude.{◌≡◌, refl, true, false, none, some}
use ghostline.Errors.{os_error}
use ghostline.Migration.{Handoff, new_migration_ticket, ticket_failed, with_ticket}
use ghostline.Migration.Decision.{finished, finished-failed}

abbrev running : Handoff
running = record {
  tickets = λ n. new_migration_ticket true;
  next_ticket = 1;
  migration = some 0;
  session_done = false;
  migrated = false;
  master_open = true;
  gate = true;
}

-- The copy loop could not drain the output.
abbrev drain_failed : Handoff
drain_failed =
    with_ticket 0
      (record {
        alive = true;
        stable = true;
        decision = none;
        stopped = false;
        ticket_error = some (os_error 5);
      })
      running

finished-failed_example :
    (s' : Handoff) × (finished 0 true drain_failed ≡ some (s', some (ticket_failed (os_error 5))))
    × (s'.migrated ≡ false)
    × (s'.master_open ≡ true)
    × (s'.migration ≡ none)
    × (s'.gate ≡ false)
finished-failed_example = finished-failed 0 true drain_failed (os_error 5) refl refl
