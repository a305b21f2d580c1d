-- ===== src/Migration.antt =====
-- process.go: the handoff of a session to another server. The tickets are shared by the copy
-- loop and the caller, so they are kept by number in a store.
use ghostline.Prelude.{
  ℕ, zero, suc, ◌+◌, Bool, true, false, not, ◌&&◌, ◌||◌, List, [], ◌∷◌, Option, none, some,
  if◌then◌else◌, ◌==◌, is_some,
}
use ghostline.Errors.{Error}
pub mod Decision
mod Examples

-- `stable` and `stopped` tell whether the channel is closed; `decision` is what choose sent.
pub record MigrationTicket : Type 0 where
  pub alive : Bool
  pub stable : Bool
  pub decision : Option Bool
  pub stopped : Bool
  pub ticket_error : Option Error

abbrev pub new_migration_ticket : Bool → MigrationTicket
new_migration_ticket alive = record {
  alive = alive;
  stable = false;
  decision = none;
  stopped = false;
  ticket_error = none;
}

abbrev pub first_error : Option Error → Option Error → Option Error
first_error none e = e
first_error (some known) e = some known

unfoldable pub mark_stable : Option Error → MigrationTicket → MigrationTicket
mark_stable e t = record t { ticket_error = first_error t.ticket_error e; stable = true }

abbrev pub first_choice : Option Bool → Bool → Option Bool
first_choice none commit = some commit
first_choice (some decided) commit = some decided

unfoldable pub choose : Bool → MigrationTicket → MigrationTicket
choose commit t = record t { decision = first_choice t.decision commit }

unfoldable pub mark_stopped : MigrationTicket → MigrationTicket
mark_stopped t = record t { stopped = true }

pub data MigrationError : Type 0 where
  migration_busy migration_stale : MigrationError
  ticket_failed : Error → MigrationError

-- `gate` is the write side of operationMu.
pub record Handoff : Type 0 where
  pub tickets : ℕ → MigrationTicket
  pub next_ticket : ℕ
  pub migration : Option ℕ
  pub session_done : Bool
  pub migrated : Bool
  pub master_open : Bool
  pub gate : Bool

abbrev pub with_ticket : ℕ → MigrationTicket → Handoff → Handoff
with_ticket n t s = record s { tickets = λ k. if n == k then t else s.tickets k }

pub data Begun : Type 0 where
  begun : ℕ → Begun
  refused : MigrationError → Begun

unfoldable pub new_ticket : Bool → Handoff → Handoff × Begun
unfolding mark_stable mark_stopped
new_ticket alive s =
    let t = new_migration_ticket alive in
    (
      record (with_ticket s.next_ticket (if alive then t else mark_stopped (mark_stable none t))
          s) { migration = some s.next_ticket; next_ticket = suc s.next_ticket; gate = true },
      begun s.next_ticket,
    )

-- beginMigration: `none` where it waits for the gate, which it takes and keeps.
unfoldable pub begin_migration : Handoff → Option (Handoff × Begun)
unfolding new_ticket
begin_migration s =
    if is_some s.migration
    then some (s, refused migration_busy)
    else if s.gate
    then none
    else some (new_ticket (not s.session_done) s)

-- Whether finishMigration commits: not after an error of the copy loop.
abbrev pub commits : Bool → Option Error → Bool
commits commit none = commit
commits commit (some e) = false

-- finishMigration up to its wait.
unfoldable pub decide_migration : ℕ → Bool → Handoff → Handoff
unfolding choose
decide_migration n commit s =
    let t = s.tickets n in
    let commit' = commits commit t.ticket_error in
    record (with_ticket n (choose commit' t) s) { migrated = commit' || s.migrated }

-- What the copy loop does with a ticket once it is decided.
unfoldable pub observe_decision : ℕ → Handoff → Handoff
unfolding mark_stopped
observe_decision n s =
    if is_some (s.tickets n).decision then with_ticket n (mark_stopped (s.tickets n)) s else s

abbrev pub is_current : Option ℕ → ℕ → Bool
is_current none n = false
is_current (some m) n = m == n

abbrev pub ticket_result : Option Error → Option MigrationError
ticket_result none = none
ticket_result (some e) = some (ticket_failed e)

-- finishMigration behind its wait: `none` where it still waits.
unfoldable pub release_migration : ℕ → Bool → Handoff → Option (Handoff × Option MigrationError)
release_migration n commit s =
    let t = s.tickets n in
    if not (t.stopped || s.session_done)
    then none
    else if not (is_current s.migration n)
    then some (record s { gate = false }, some migration_stale)
    else some (
      record s {
        migration = none;
        gate = false;
        master_open = s.master_open && not (commits commit t.ticket_error);
      },
      ticket_result t.ticket_error,
    )
