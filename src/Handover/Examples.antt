-- ===== src/Handover/Examples.antt =====
-- server.go: a batch of one session.
use mathlib.Core.Option.{some-injective}
use ghostline.Prelude.{
  ℕ, if◌then◌else◌, ◌≡◌, ◌⊎◌, refl, sym, ◌∙◌, ap, inl, inr, true, false, Option, none, some, List,
  [], ◌∷◌, Bytes, bytes_eq, bytes_eq_iff, arith, Bool-cases,
}
use ghostline.Prelude.Names.{find}
use ghostline.Migration.{Handoff, new_migration_ticket, with_ticket, mark_stable}
use ghostline.Handover.{Adoption, Source, AdminReply, committed, prepared, admin_batch, resolve_all}
use ghostline.Migrate.{AdminSnapshotResult, is_blank}
use ghostline.Handover.Snapshot.{
  IsSent, trim_migration_replay_for_frame, migration_snapshot_fits, admin_max_frame, trim_outcome,
}
use ghostline.Handover.Prepared.{IsSource, names_of}
use ghostline.Handover.Commit.{Refuses, HandsOver, commit_outcome}

abbrev main : Bytes
main = b'm' ∷ []

abbrev handed : Handoff
handed = record {
  tickets = λ n. mark_stable none (new_migration_ticket true);
  next_ticket = 1;
  migration = some 0;
  session_done = false;
  migrated = false;
  master_open = true;
  gate = true;
}

abbrev adoption : Adoption
adoption = record { name = main; identity = 0; ticket = 0 }

abbrev frozen : Source
frozen = record {
  sessions = (main, 0) ∷ [];
  hub_closed = false;
  handoffs = λ n. handed;
  pending = (main, adoption) ∷ [];
  batch_frozen = true;
}

frozen-IsSource : IsSource (λ n. main) frozen
unfolding find
frozen-IsSource name a e = elim (Bool-cases (bytes_eq main name)) [
  | inl same ↦
      let known : main ≡ name = (bytes_eq_iff main name).0 same in
      let found : adoption ≡ a = some-injective adoption a (ground (arith, same, e)) in
      (sym (ap (λ x. x.name) found) ∙ known, known)
  | inr other ↦ absurd (ground (arith, other, e))
]

commit_outcome_example :
    Refuses frozen (admin_batch true (main ∷ []) frozen)
    ⊎ ((batch : List Adoption) × (prepared (main ∷ []) [] frozen.pending ≡ some batch)
        × (names_of batch ≡ main ∷ [])
        × ((admin_batch true (main ∷ []) frozen).1 ≡ committed 1)
        × HandsOver batch frozen (admin_batch true (main ∷ []) frozen).0)
commit_outcome_example = commit_outcome (λ n. main) (main ∷ []) frozen frozen-IsSource

-- It is the second.
commit_outcome_test : (admin_batch true (main ∷ []) frozen).1 ≡ committed 1
unfolding admin_batch find mark_stable ghostline.Handover.resolve_adoption
    ghostline.Migration.release_migration ghostline.Migration.observe_decision
    ghostline.Migration.decide_migration
commit_outcome_test = refl

-- A terminal whose replay does not fit.
abbrev large : AdminSnapshotResult Bytes
large = record {
  snapshot = b's' ∷ [];
  replay = b'r' ∷ [];
  pwd = [];
  shell = none;
  lossy = false;
  reason = [];
}

abbrev frame_of : AdminSnapshotResult Bytes → Option ℕ
frame_of r = some (if is_blank r.replay then 40 else admin_max_frame)

trim_outcome_example : IsSent frame_of large (trim_migration_replay_for_frame frame_of large)
trim_outcome_example = trim_outcome frame_of large

trim_test : trim_migration_replay_for_frame frame_of large ≡ record large { replay = [] }
unfolding trim_migration_replay_for_frame migration_snapshot_fits
trim_test = refl
