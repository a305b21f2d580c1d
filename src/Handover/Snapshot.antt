-- ===== src/Handover/Snapshot.antt =====
-- server.go: the snapshot request, with trimMigrationReplayForFrame. The encodings of package
-- base64 and package json, and what the terminal gives, are arguments.
use ghostline.Prelude.{
  sym, ap, ◌∙◌, ℕ, ◌+◌, ◌≡◌, ◌⊎◌, inl, inr, refl, Bool, true, false, Option, none, some, [], ◌∷◌,
  ◌++◌, Bytes, length, leb, is_some, if◌then◌else◌,
}
use ghostline.Prelude.Names.{find}
use ghostline.Errors.{Error, Result, ok, err}
use ghostline.Rpc.{ascii}
use ghostline.Handover.{Source}
use ghostline.Migrate.{AdminSnapshotResult, is_blank}

-- 64 << 20 and 8 << 20
abbrev pub admin_max_frame : ℕ
admin_max_frame = 67108864

abbrev pub admin_max_replay_bytes : ℕ
admin_max_replay_bytes = 8388608

module _ {Shell : Type 0} (frame : AdminSnapshotResult Shell → Option ℕ) where
  -- migrationSnapshotFits, where `frame` is the length of the response.
  unfoldable pub migration_snapshot_fits : AdminSnapshotResult Shell → Bool
  migration_snapshot_fits r = elim (frame r) [ none ↦ false | some n ↦ leb (n + 1) admin_max_frame ]

  abbrev pub without_replay : AdminSnapshotResult Shell → AdminSnapshotResult Shell
  without_replay r = record r { replay = [] }

  abbrev pub without_snapshot : AdminSnapshotResult Shell → AdminSnapshotResult Shell
  without_snapshot r = record r {
    snapshot = [];
    lossy = true;
    reason =
        if is_blank r.reason then ascii "native snapshot exceeds migration limit" else r.reason;
  }

  -- trimMigrationReplayForFrame
  unfoldable pub trim_migration_replay_for_frame :
      AdminSnapshotResult Shell → AdminSnapshotResult Shell
  unfolding migration_snapshot_fits
  trim_migration_replay_for_frame r =
      if migration_snapshot_fits r
      then r
      else if is_blank r.replay
      then without_snapshot r
      else if migration_snapshot_fits (without_replay r)
      then without_replay r
      else without_snapshot (without_replay r)

module _ (text : Error → Bytes) (base64 : Bytes → Bytes) where
  -- What is added to the reason why there is no native snapshot.
  abbrev pub replay_reason : Result Bytes → Bytes
  replay_reason (err e) = ascii "; ANSI replay failed: " ++ text e
  replay_reason (ok b) =
      if leb (length b) admin_max_replay_bytes
      then []
      else ascii "; ANSI replay exceeds migration limit"

  abbrev pub replay_of : Result Bytes → Bytes
  replay_of (err e) = []
  replay_of (ok b) = if leb (length b) admin_max_replay_bytes then base64 b else []

module _ {Shell : Type 0} (text : Error → Bytes) (base64 : Bytes → Bytes) where
  -- What is sent of the terminal, before it is cut to the frame.
  unfoldable pub snapshot_result :
      Result Bytes → Result Bytes → Bytes → Option Shell → AdminSnapshotResult Shell
  snapshot_result (ok b) replay pwd shell = record {
    snapshot = base64 b;
    replay = replay_of text base64 replay;
    pwd = pwd;
    shell = shell;
    lossy = false;
    reason = [];
  }
  snapshot_result (err e) replay pwd shell = record {
    snapshot = [];
    replay = replay_of text base64 replay;
    pwd = pwd;
    shell = shell;
    lossy = true;
    reason = text e ++ replay_reason text base64 replay;
  }

-- The snapshot request, of a session whose terminal gives `encoded` and `replay`.
unfoldable pub admin_snapshot :
    {Shell : Type 0}
    → (Error → Bytes)
    → (Bytes → Bytes)
    → (AdminSnapshotResult Shell → Option ℕ)
    → Result Bytes
    → Result Bytes
    → Bytes
    → Option Shell
    → Bytes
    → Source
    → Option (AdminSnapshotResult Shell)
unfolding snapshot_result trim_migration_replay_for_frame
admin_snapshot text base64 frame encoded replay pwd shell name s =
    if is_some (find name s.pending)
    then some (
        trim_migration_replay_for_frame frame
          (snapshot_result text base64 encoded replay pwd shell))
    else none

is_blank-nil : (b : Bytes) → is_blank b ≡ true → b ≡ []
is_blank-nil [] e = refl
is_blank-nil (x ∷ xs) e = absurd (cc)

module _ {Shell : Type 0} (frame : AdminSnapshotResult Shell → Option ℕ) where
  -- What of a result is sent in its place.
  abbrev pub IsSent : AdminSnapshotResult Shell → AdminSnapshotResult Shell → Type 0
  IsSent r t =
      ((migration_snapshot_fits frame r ≡ true) × (t ≡ r))
      ⊎ ((migration_snapshot_fits frame r ≡ false)
          × (migration_snapshot_fits frame (record r { replay = [] }) ≡ true)
          × (t ≡ record r { replay = [] }))
      ⊎ ((migration_snapshot_fits frame (record r { replay = [] }) ≡ false)
          × (t.snapshot ≡ [])
          × (t.replay ≡ [])
          × (t.lossy ≡ true)
          × (is_blank t.reason ≡ false)
          × (t.pwd ≡ r.pwd)
          × (t.shell ≡ r.shell))

  if-IsSent :
      (r t t' : AdminSnapshotResult Shell) (b : Bool)
      → (b ≡ true → IsSent r t)
      → (b ≡ false → IsSent r t')
      → IsSent r (if b then t else t')
  if-IsSent r t t' true h h' = h refl
  if-IsSent r t t' false h h' = h' refl

  reason_given :
      (b : Bytes)
      → is_blank (if is_blank b then ascii "native snapshot exceeds migration limit" else b) ≡ false
  reason_given [] = refl
  reason_given (x ∷ xs) = refl

  -- A snapshot result that fits the frame is sent as it is; one that fits without its replay is
  -- sent without that and otherwise as it is; and one that does not fit without its replay is
  -- sent without anything of the screen, marked as lossy and with a reason, with the working
  -- directory and the shell metadata as they were.
  pub trim_outcome :
      (r : AdminSnapshotResult Shell) → IsSent r (trim_migration_replay_for_frame frame r)
  unfolding trim_migration_replay_for_frame
  trim_outcome r =
      if-IsSent r r _ (migration_snapshot_fits frame r) (λ f. inl (f, refl))
        (λ f.
          if-IsSent r (without_snapshot frame r) _ (is_blank r.replay)
            (λ e.
              let none_there = is_blank-nil r.replay e in
              inr (
                inr (
                  ap (λ b. migration_snapshot_fits frame (record r { replay = b })) (sym none_there)
                      ∙ f,
                  refl,
                  none_there,
                  refl,
                  reason_given r.reason,
                  refl,
                  refl,
                )))
            (λ e.
              if-IsSent r (without_replay frame r) (without_snapshot frame (without_replay frame r))
                (migration_snapshot_fits frame (without_replay frame r))
                (λ g. inr (inl (f, g, refl)))
                (λ g. inr (inr (g, refl, refl, refl, reason_given r.reason, refl, refl)))))
