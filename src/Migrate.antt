-- ===== src/Migrate.antt =====
-- migrate.go: a server that takes over the sessions of another. The calls of the admin client are
-- an interface of the connection; what comes of building the state of one session is an argument.
mod Attempts
mod Transaction
mod Peers
mod Requests
mod Names
mod Part
mod Ownership
mod Examples
use ghostline.Prelude.{
  ℕ, Bool, true, false, not, ◌&&◌, ◌||◌, Option, none, some, List, [], ◌∷◌, Bytes, length, ◌==◌,
  bytes_eq, if◌then◌else◌, map,
}
use ghostline.Prelude.Int.{ℤ}
use ghostline.Prelude.Names.{store}
use ghostline.Errors.{Error, failure, closed, Result, ok, err}
use ghostline.Rpc.{ascii}
use ghostline.Size.{Size}
use ghostline.Session.{ExitError}

-- What the code uses of sessionMeta.
pub record SessionMeta : Type 0 where
  pub name : Bytes
  pub size : Size
  pub created_at : ℤ
  pub pid : ℤ
  pub alive : Bool
  pub scrollback_max_bytes : ℕ
  pub output_directory : Bytes
  pub output_generation : ℕ
  pub spool_path : Bytes
  pub spool_format : Bytes
  pub exit : Option ExitError

pub record AdminListResult : Type 0 where
  pub version : Bytes
  pub handoff_version : Bytes
  pub sessions : List SessionMeta

-- adminSnapshotResult, for a type of shell metadata.
pub record AdminSnapshotResult (Shell : Type 0) : Type 0 where
  pub snapshot : Bytes
  pub replay : Bytes
  pub pwd : Bytes
  pub shell : Option Shell
  pub lossy : Bool
  pub reason : Bytes

-- The calls of adminClient, on a connection.
pub record Peer (Shell C : Type 0) : Type 0 where
  pub list : C → C × Result AdminListResult
  pub adopt : Bytes → C → C × Result SessionMeta
  pub take_fd : C → C × Result ℕ
  pub snapshot : Bytes → C → C × Result (AdminSnapshotResult Shell)
  pub commit : List Bytes → C → C × Result ℕ
  pub abort : List Bytes → C → C
  pub exit : C → C

-- adoptState, adoptLossyState and adoptV0State, of what was handed over and its master;
-- SetReportedPwd and SetShellMetadata; and the decoder of package base64.
pub record Ways (Shell V : Type 0) : Type 0 where
  pub native : SessionMeta → Option ℕ → Bytes → Result V
  pub lossy : SessionMeta → Option ℕ → Bytes → Result V
  pub from_spool : SessionMeta → Option ℕ → Result V
  pub present : Bytes → Option Shell → V → V
  pub decode : Bytes → Option Bytes
  pub has_master : V → Bool  -- state.master != nil

-- What the code uses of the hub of the new server.
pub record Target (V : Type 0) : Type 0 where
  pub sessions : List (Bytes × V)
  pub pending : List (Bytes × Unit {0})
  pub is_closed : Bool

-- The connection afterwards, the hub, the states that were closed, those whose copy loop was
-- started, and the result.
pub record Migrated (C V : Type 0) : Type 0 where
  pub peer : C
  pub hub : Target V
  pub closed_states : List V
  pub running : List V
  pub result : Result ℕ

abbrev pub protocol_version : Bytes
protocol_version = ascii "1.0.0"

abbrev pub v0_compatibility_protocol_version : Bytes
v0_compatibility_protocol_version = ascii "0.8.0"

abbrev pub v0_handoff_protocol_version : Bytes
v0_handoff_protocol_version = ascii "ghostline-v0-to-v1-1"

abbrev pub v0_spool_format : Bytes
v0_spool_format = ascii "ghostline-v0-spool-1"

-- decodeMigrationBlob
abbrev pub decode_migration_blob : (Bytes → Option Bytes) → Bytes → Option Bytes
decode_migration_blob decode [] = some []
decode_migration_blob decode (b ∷ rest) = decode (b ∷ rest)

abbrev pub or_blank : Option Bytes → Bytes
or_blank none = []
or_blank (some b) = b

abbrev pub is_blank {ℓ} : {A : Type ℓ} → List A → Bool
is_blank [] = true
is_blank (x ∷ xs) = false

abbrev pub seconds : {V : Type 0} → List (Bytes × V) → List V
seconds [] = []
seconds ((name, v) ∷ rest) = v ∷ seconds rest

abbrev pub firsts : {V : Type 0} → List (Bytes × V) → List Bytes
firsts [] = []
firsts ((name, v) ∷ rest) = name ∷ firsts rest

-- The states that have a copy loop to start.
abbrev pub with_master : {V : Type 0} → (V → Bool) → List V → List V
with_master has_master [] = []
with_master has_master (v ∷ rest) =
    let kept = with_master has_master rest in if has_master v then v ∷ kept else kept

abbrev pub install : {V : Type 0} → List (Bytes × V) → List (Bytes × V) → List (Bytes × V)
install [] sessions = sessions
install ((name, v) ∷ rest) sessions = install rest (store name v sessions)

-- Which version of the handoff the other server speaks: whether it is the one of v0.
unfoldable pub handoff_of : AdminListResult → Result Bool
handoff_of listed =
    if bytes_eq listed.version protocol_version
    then ok false
    else if bytes_eq listed.version v0_compatibility_protocol_version
    then (if bytes_eq listed.handoff_version v0_handoff_protocol_version
        then ok true
        else err (failure []))
    else err (failure [])

module _ {Shell V : Type 0} (w : Ways Shell V) where
  abbrev pub or_lossy : SessionMeta → Option ℕ → Bytes → Result V → Result V
  or_lossy m fd replay (ok v) = ok v
  or_lossy m fd replay (err e) = w.lossy m fd replay

  abbrev pub presented : AdminSnapshotResult Shell → Result V → Result V
  presented snap (err e) = err e
  presented snap (ok v) = ok (w.present snap.pwd snap.shell v)

  abbrev pub native_state : SessionMeta → Option ℕ → Option Bytes → Result V
  native_state m fd none = err (failure [])
  native_state m fd (some []) = err (failure [])
  native_state m fd (some (b ∷ rest)) = w.native m fd (b ∷ rest)

  -- adoptNativeOrLossyState
  unfoldable pub adopt_native_or_lossy_state :
      SessionMeta → Option ℕ → AdminSnapshotResult Shell → Result V
  adopt_native_or_lossy_state m fd snap =
      let replay = or_blank (decode_migration_blob w.decode snap.replay) in
      presented snap
        (or_lossy m fd replay (native_state m fd (decode_migration_blob w.decode snap.snapshot)))

  -- The state of a session of a v0 server.
  unfoldable pub recover_v0 : SessionMeta → Option ℕ → Result V
  recover_v0 m fd =
      if not (bytes_eq m.spool_format v0_spool_format) || is_blank m.spool_path
      then w.lossy m fd []
      else or_lossy m fd [] (w.from_spool m fd)

module _ {Shell V C : Type 0} (p : Peer Shell C) (w : Ways Shell V) where
  abbrev pub fd_of : SessionMeta → C × Result ℕ → C × Result (SessionMeta × Option ℕ)
  fd_of m (c, err e) = (c, err e)
  fd_of m (c, ok fd) = (c, ok (m, some fd))

  abbrev pub with_fd : C × Result SessionMeta → C × Result (SessionMeta × Option ℕ)
  with_fd (c, err e) = (c, err e)
  with_fd (c, ok m) = if m.alive then fd_of m (p.take_fd c) else (c, ok (m, none))

  -- receiveAdoptedSession
  unfoldable pub receive_adopted_session : Bytes → C → C × Result (SessionMeta × Option ℕ)
  receive_adopted_session name c = with_fd (p.adopt name c)

  -- A session that is skipped.
  abbrev pub skip : Bytes → C → C × Option (Bytes × V)
  skip name c = (p.abort (name ∷ []) c, none)

  abbrev pub settle : Bytes → SessionMeta → Result V → C → C × Option (Bytes × V)
  settle name m (err e) c = skip name c
  settle name m (ok v) c = (c, some (m.name, v))

  -- The second attempt, after a snapshot that failed.
  abbrev pub retried : Bytes → C × Result (SessionMeta × Option ℕ) → C × Option (Bytes × V)
  retried name (c, err e) = skip name c
  retried name (c, ok (m, fd)) = settle m.name m (w.lossy m fd []) c

  unfoldable pub after_snapshot :
      Bytes
      → SessionMeta
      → Option ℕ
      → C × Result (AdminSnapshotResult Shell)
      → C × Option (Bytes × V)
  unfolding receive_adopted_session adopt_native_or_lossy_state
  after_snapshot name m fd (c, err e) = retried m.name (receive_adopted_session name c)
  after_snapshot name m fd (c, ok snap) =
      settle m.name m (adopt_native_or_lossy_state w m fd snap) c

  unfoldable pub after_received :
      Bool → Bytes → C × Result (SessionMeta × Option ℕ) → C × Option (Bytes × V)
  unfolding after_snapshot recover_v0
  after_received v0 name (c, err e) = skip name c
  after_received true name (c, ok (m, fd)) = settle name m (recover_v0 w m fd) c
  after_received false name (c, ok (m, fd)) = after_snapshot name m fd (p.snapshot m.name c)

  abbrev pub gathered :
      Bytes
      → Option (Bytes × V)
      → C × List (Bytes × V) × List Bytes
      → C × List (Bytes × V) × List Bytes
  gathered name none (c, done, skipped) = (c, done, name ∷ skipped)
  gathered name (some d) (c, done, skipped) = (c, d ∷ done, skipped)

  -- The loop over the listed sessions: what was prepared, by name, and the names of the rest.
  unfoldable pub take_over : Bool → List SessionMeta → C → C × List (Bytes × V) × List Bytes
  unfolding after_received receive_adopted_session
  take_over v0 [] c = (c, [], [])
  take_over v0 (m ∷ ms) c =
      let one = after_received v0 m.name (receive_adopted_session m.name c) in
      gathered m.name one.1 (take_over v0 ms one.0)

  -- The deferred abort.
  abbrev pub roll_back : Target V → List (Bytes × V) → Error → C → Migrated C V
  roll_back hub done e c = record {
    peer = if is_blank done then c else p.abort (firsts done) c;
    hub = hub;
    closed_states = seconds done;
    running = [];
    result = err e;
  }

  abbrev pub after_commit : Target V → List (Bytes × V) → C × Result ℕ → Migrated C V
  after_commit hub done (c, err e) = roll_back hub done e c
  after_commit hub done (c, ok n) =
      if n == length done
      then record {
        peer = p.exit c;
        hub = record hub { sessions = install done hub.sessions };
        closed_states = [];
        running = with_master w.has_master (seconds done);
        result = ok n;
      }
      else roll_back hub done (failure []) c

  abbrev pub after_taken : Target V → C × List (Bytes × V) × List Bytes → Migrated C V
  after_taken hub (c, done, name ∷ skipped) = roll_back hub done (failure []) c
  after_taken hub (c, done, []) = after_commit hub done (p.commit (firsts done) c)

  abbrev pub after_handoff : Target V → List SessionMeta → C → Result Bool → Migrated C V
  after_handoff hub ms c (err e) = roll_back hub [] e c
  after_handoff hub ms c (ok v0) = after_taken hub (take_over v0 ms c)

  abbrev pub after_list : Target V → C × Result AdminListResult → Migrated C V
  after_list hub (c, err e) = roll_back hub [] e c
  after_list hub (c, ok listed) = after_handoff hub listed.sessions c (handoff_of listed)

  -- adoptSessionsWithReport, once the directory is made and the connection is there.
  unfoldable pub adopt_sessions : Target V → C → Migrated C V
  unfolding take_over handoff_of
  adopt_sessions hub c =
      if hub.is_closed
      then roll_back hub [] closed c
      else if not (is_blank hub.sessions && is_blank hub.pending)
      then roll_back hub [] (failure []) c
      else after_list hub (p.list c)
