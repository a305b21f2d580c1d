-- ===== src/Migrate/Examples.antt =====
-- migrate.go and server.go: the migration of one session.
use ghostline.Prelude.{◌≡◌, ◌⊎◌, refl, true, false, none, some, [], ◌∷◌, Bytes}
use ghostline.Prelude.Int.{pos}
use ghostline.Errors.{ok, err, failure}
use ghostline.Migration.{
  Handoff, new_migration_ticket, begin_migration, decide_migration, observe_decision,
  release_migration,
}
use ghostline.Handover.{Source, admin_list, admin_adopt, resolve_adoption, admin_batch}
use ghostline.Prelude.Names.{find, store}
use ghostline.Hub.Order.{session_states}
use ghostline.Handover.Prepared.{IsSource}
use ghostline.Migrate.{SessionMeta, Ways, Target, adopt_sessions}
use ghostline.Migrate.Peers.{Surroundings, source_peer}
use ghostline.Migrate.Ownership.{one_owner, StaysWithSource, GoesToTarget}

abbrev main : Bytes
main = b'm' ∷ []

abbrev idle : Handoff
idle = record {
  tickets = λ n. new_migration_ticket true;
  next_ticket = 0;
  migration = none;
  session_done = false;
  migrated = false;
  master_open = true;
  gate = false;
}

abbrev old_server : Source
old_server = record {
  sessions = (main, 0) ∷ [];
  hub_closed = false;
  handoffs = λ n. idle;
  pending = [];
  batch_frozen = false;
}

abbrev its_meta : SessionMeta
its_meta = record {
  name = main;
  size = record { columns = pos 80; rows = pos 24 };
  created_at = pos 5;
  pid = pos 7;
  alive = true;
  scrollback_max_bytes = 1000;
  output_directory = b'd' ∷ [];
  output_generation = 1;
  spool_path = [];
  spool_format = [];
  exit = none;
}

abbrev surroundings : Surroundings Bytes
surroundings = record {
  created = λ k. 5;
  name_of = λ k. main;
  describe = λ k. none;
  meta_of = λ s k alive. its_meta;
  stops = λ name. record { in_time = true; drained = none; described = none };
  others = λ s. s;
  arrives = ok 9;
  encoded = λ name s. record {
    snapshot = b'x' ∷ [];
    replay = [];
    pwd = [];
    shell = none;
    lossy = false;
    reason = [];
  };
}

-- A state is the snapshot it was made of.
abbrev ways : Ways Bytes Bytes
ways = record {
  native = λ m fd snapshot. ok snapshot;
  lossy = λ m fd replay. ok replay;
  from_spool = λ m fd. err (failure []);
  present = λ pwd shell v. v;
  decode = λ b. some b;
  has_master = λ v. true;
}

abbrev empty_hub : Target Bytes
empty_hub = record { sessions = []; pending = []; is_closed = false }

nothing_pending : IsSource (λ k. main) old_server
unfolding find
nothing_pending name a f = absurd (cc)

one_owner_example :
    StaysWithSource surroundings
      (λ s. (refl, refl, λ k. refl))
      old_server
      (refl, tt)
      empty_hub
      (adopt_sessions (source_peer surroundings) ways empty_hub old_server)
    ⊎ GoesToTarget surroundings
        (λ s. (refl, refl, λ k. refl))
        old_server
        (refl, tt)
        ways
        empty_hub
        (adopt_sessions (source_peer surroundings) ways empty_hub old_server)
one_owner_example =
    one_owner surroundings (λ s. (refl, refl, λ k. refl)) old_server (refl, tt) ways empty_hub
      nothing_pending

-- It is the second.
one_owner_test : (adopt_sessions (source_peer surroundings) ways empty_hub old_server).result ≡ ok 1
unfolding adopt_sessions admin_list session_states admin_adopt find begin_migration store
    admin_batch resolve_adoption release_migration observe_decision decide_migration
one_owner_test = refl
