-- ===== src/Handover.antt =====
-- server.go: handleAdmin, the connection over which another server takes over the sessions of
-- this one. The sessions are known by their identities; what happens to one while it is asked to
-- stop its output is an argument.
mod Tickets
pub mod Prepared
pub mod Commit
pub mod Keeps
pub mod Aborts
pub mod Pending
mod Snapshot
mod Examples
use ghostline.Prelude.{
  ℕ, zero, suc, Bool, true, false, not, ◌&&◌, ◌||◌, Option, none, some, List, [], ◌∷◌, ◌++◌, Bytes,
  length, ◌==◌, is_some, if◌then◌else◌,
}
use ghostline.Prelude.Maps.{update}
use ghostline.Prelude.Names.{find, store, discard}
use ghostline.Errors.{Error, failure, session_not_found}
use ghostline.Hub.Order.{session_states}
use ghostline.Migration.{
  Handoff, MigrationTicket, MigrationError, migration_stale, ticket_failed, migration_busy, Begun,
  begun, refused, begin_migration, decide_migration, observe_decision, release_migration,
  mark_stable, with_ticket, is_current,
}
use ghostline.Migration.Decision.{finished}

-- pendingAdoption: the session and its ticket.
pub record Adoption : Type 0 where
  pub name : Bytes
  pub identity : ℕ
  pub ticket : ℕ

-- The hub's map, the handoff of each session, and what the connection keeps.
pub record Source : Type 0 where
  pub sessions : List (Bytes × ℕ)
  pub hub_closed : Bool
  pub handoffs : ℕ → Handoff
  pub pending : List (Bytes × Adoption)
  pub batch_frozen : Bool

pub data AdminError : Type 0 where
  batch_active list_first already_prepared not_prepared not_committed timed_out : AdminError
  bad_params unknown_method : AdminError
  of_migration : MigrationError → AdminError
  of_error : Error → AdminError

pub data AdminReply : Type 0 where
  refuses : AdminError → AdminReply
  lists : List ℕ → AdminReply
  hands_over : ℕ → Bool → AdminReply  -- the session, and whether its master goes with it
  committed : ℕ → AdminReply
  exits : AdminReply

abbrev pub end_batch : Source → Source
end_batch s = record s { batch_frozen = false }

abbrev pub is_idle : List (Bytes × Adoption) → Bool
is_idle [] = true
is_idle (entry ∷ rest) = false

-- endBatchIfIdle
abbrev pub end_batch_if_idle : Source → Source
end_batch_if_idle s = if s.batch_frozen && is_idle s.pending then end_batch s else s

abbrev pub identities : List (Bytes × ℕ) → List ℕ
identities [] = []
identities ((name, identity) ∷ rest) = identity ∷ identities rest

-- The first error of describing the sessions in turn.
abbrev pub described : (ℕ → Option Error) → List ℕ → Option Error
described describe [] = none
described describe (k ∷ ks) =
    let later = described describe ks in elim (describe k) [ some e ↦ some e | none ↦ later ]

-- The list request, of sessions with these names and times of creation; `describe` is the error
-- of describing a session.
unfoldable pub admin_list :
    (ℕ → ℕ) → (ℕ → Bytes) → (ℕ → Option Error) → Source → Source × AdminReply
admin_list created name_of describe s =
    let states = session_states created name_of (identities s.sessions) in
    if s.batch_frozen || s.hub_closed
    then (s, refuses batch_active)
    else elim (described describe states) [
      | some e ↦ (s, refuses (of_error e))
      | none ↦ (record s { batch_frozen = true }, lists states)
    ]

abbrev pub settled_handoff : Handoff → Option (Handoff × Option MigrationError) → Handoff
settled_handoff old none = old
settled_handoff old (some (h, e)) = h

abbrev pub settled_error : Bool → Option (Handoff × Option MigrationError) → Option MigrationError
settled_error commit none = none
settled_error false (some (h, e)) = none
settled_error true (some (h, e)) = e

-- resolveAdoption
unfoldable pub resolve_adoption : Adoption → Bool → Source → Source × Option MigrationError
resolve_adoption a commit s =
    let result = finished a.ticket commit (s.handoffs a.identity) in
    (
      record s {
        handoffs = update s.handoffs a.identity (settled_handoff (s.handoffs a.identity) result);
      },
      settled_error commit result,
    )

abbrev pub forget : Bytes → Source → Source
forget name s = record s { pending = discard name s.pending }

-- An adoption that is given up before it is answered.
abbrev pub give_up : Adoption → Source → Source
give_up a s = forget a.name (resolve_adoption a false s).0

-- What becomes of a session that was asked to stop: it may take too long; its copy loop may
-- report an error; and describing it may fail.
pub record StopAnswer : Type 0 where
  pub in_time : Bool
  pub drained : Option Error
  pub described : Option Error

-- Behind beginMigration.
unfoldable pub answer_adopt : StopAnswer → Adoption → Source → Source × AdminReply
answer_adopt answer a s =
    let t = (s.handoffs a.identity).tickets a.ticket in
    let h =
      with_ticket a.ticket (if t.alive then mark_stable answer.drained t else t)
        (s.handoffs a.identity) in
    let stable = record s {
      pending = store a.name a s.pending;
      handoffs = update s.handoffs a.identity h;
    } in
    if not (answer.in_time || t.stable)
    then (give_up a (record s { pending = store a.name a s.pending }), refuses timed_out)
    else elim (h.tickets a.ticket).ticket_error [
      | some e ↦ (give_up a stable, refuses (of_error e))
      | none ↦ elim answer.described [
        | some e ↦ (give_up a stable, refuses (of_error e))
        | none ↦ (stable, hands_over a.identity t.alive)
      ]
    ]

abbrev pub after_begin :
    StopAnswer → Bytes → ℕ → Source → Option (Handoff × Begun) → Option (Source × AdminReply)
after_begin answer name identity s none = none
after_begin answer name identity s (some (h, refused e)) =
    some (record s { handoffs = update s.handoffs identity h }, refuses (of_migration e))
after_begin answer name identity s (some (h, begun n)) = some (
    answer_adopt answer (record { name = name; identity = identity; ticket = n })
      (record s { handoffs = update s.handoffs identity h }))

-- The adopt request; none where it waits for the session's gate.
unfoldable pub admin_adopt : StopAnswer → Bytes → Source → Option (Source × AdminReply)
unfolding answer_adopt
admin_adopt answer name s =
    if not s.batch_frozen
    then some (s, refuses list_first)
    else if is_some (find name s.pending)
    then some (s, refuses already_prepared)
    else elim (find name s.sessions) [
      | none ↦ some (s, refuses (of_error session_not_found))
      | some identity ↦ after_begin answer name identity s (begin_migration (s.handoffs identity))
    ]

-- The adoptions of a batch; none where a name comes twice or is not prepared.
abbrev pub with_adoption : Option Adoption → Option (List Adoption) → Option (List Adoption)
with_adoption (some a) (some rest) = some (a ∷ rest)
with_adoption (some a) none = none
with_adoption none rest = none

unfoldable pub prepared :
    List Bytes → List (Bytes × Unit {0}) → List (Bytes × Adoption) → Option (List Adoption)
prepared [] seen pending = some []
prepared (name ∷ names) seen pending =
    let rest = prepared names (store name tt seen) pending in
    if is_some (find name seen) then none else with_adoption (find name pending) rest

abbrev pub ticket_trouble : Bool → Option Error → Option MigrationError
ticket_trouble current (some e) = some (ticket_failed e)
ticket_trouble true none = none
ticket_trouble false none = some migration_stale

-- The preflight of one adoption.
abbrev pub trouble : Source → Adoption → Option MigrationError
trouble s a =
    let h = s.handoffs a.identity in
    ticket_trouble (is_current h.migration a.ticket) (h.tickets a.ticket).ticket_error

unfoldable pub preflight : Source → List Adoption → Option MigrationError
preflight s [] = none
preflight s (a ∷ rest) = elim (trouble s a) [ some e ↦ some e | none ↦ preflight s rest ]

abbrev pub first_of : Option MigrationError → Option MigrationError → Option MigrationError
first_of (some e) later = some e
first_of none later = later

-- The loop over a batch.
unfoldable pub resolve_all : Bool → List Adoption → Source → Source × Option MigrationError
resolve_all commit [] s = (s, none)
resolve_all commit (a ∷ rest) s =
    let (s₁, e) = resolve_adoption a commit s in
    let (s₂, later) = resolve_all commit rest s₁ in (s₂, first_of e later)

-- A batch that is taken back: what is still on its ticket is resolved, and `drops_migrated`
-- tells whether what has gone over leaves the hub.
unfoldable pub take_back : Bool → List Adoption → Source → Source
take_back drops_migrated [] s = s
take_back drops_migrated (a ∷ rest) s =
    let current = is_current (s.handoffs a.identity).migration a.ticket in
    let s₁ = if current then (resolve_adoption a false s).0 else s in
    let s₂ = forget a.name s₁ in
    take_back drops_migrated rest (
      if drops_migrated && (s₂.handoffs a.identity).migrated
      then record s₂ { sessions = discard a.name s₂.sessions }
      else s₂)

-- What is resolved is no longer pending, and after a commit no longer in the hub.
unfoldable pub drop_all : Bool → List Adoption → Source → Source
drop_all commit [] s = s
drop_all commit (a ∷ rest) s = drop_all commit rest (record (forget a.name s) {
  sessions = if commit then discard a.name s.sessions else s.sessions;
})

abbrev pub finish_batch :
    Bool → List Adoption → Source × Option MigrationError → Source × AdminReply
finish_batch commit batch (s, some e) =
    if commit
    then (end_batch_if_idle (take_back true batch s), refuses (of_migration e))
    else (drop_all commit batch s, committed (length batch))
finish_batch commit batch (s, none) =
    let s' = drop_all commit batch s in
    ((if commit then end_batch_if_idle s' else s'), committed (length batch))

-- After a commit that fails here the connection ends.
unfoldable pub run_batch : Bool → List Adoption → Source → Source × AdminReply
unfolding preflight resolve_all take_back drop_all
run_batch commit batch s = elim (if commit then preflight s batch else none) [
  | some e ↦ (end_batch_if_idle (take_back false batch s), refuses (of_migration e))
  | none ↦ finish_batch commit batch (resolve_all commit batch s)
]

-- The commit and abort requests.
unfoldable pub admin_batch : Bool → List Bytes → Source → Source × AdminReply
unfolding run_batch prepared
admin_batch commit names s = elim (prepared names [] s.pending) [
  | none ↦ (s, refuses not_prepared)
  | some batch ↦ run_batch commit batch s
]

-- The exit request, after which the listeners are closed.
unfoldable pub admin_exit : Source → Source × AdminReply
admin_exit s = if is_idle s.pending then (s, exits) else (s, refuses not_committed)

abbrev pub adoptions : List (Bytes × Adoption) → List Adoption
adoptions [] = []
adoptions ((name, a) ∷ rest) = a ∷ adoptions rest

-- The end of the connection: what is pending is given back.
unfoldable pub disconnect : Source → Source
unfolding resolve_all
disconnect s = end_batch (resolve_all false (adoptions s.pending) s).0
