-- ===== src/Migrate/Attempts.antt =====
-- migrate.go: the attempts to take over each session, from any server that keeps to its part.
use ghostline.Prelude.{
  ℕ, ◌≡◌, ◌⊎◌, refl, ◌∙◌, ap, Bool, true, false, Option, none, some, List, [], ◌∷◌, Bytes, length,
  if◌then◌else◌,
}
use ghostline.Errors.{Error, Result, ok, err}
use ghostline.Migrate.{
  SessionMeta, AdminListResult, AdminSnapshotResult, Peer, Ways, firsts, with_fd, fd_of,
  receive_adopted_session, settle, retried, after_snapshot, after_received, gathered, take_over,
  recover_v0, adopt_native_or_lossy_state,
}

abbrev pub names_of_metas : List SessionMeta → List Bytes
names_of_metas [] = []
names_of_metas (m ∷ ms) = m.name ∷ names_of_metas ms

-- The part of the other server: what holds of the connection before anything has gone over, what
-- holds after some sessions have, and how its answers keep to this.
pub record Keeps {Shell C : Type 0} (p : Peer Shell C) (names : List Bytes) : Type 1 where
  pub Before : C → Type 0
  pub Done : List Bytes → C → Type 0
  pub list-Before : (c : C) → Before c → Before (p.list c).0
  pub list_names :
      (c : C) (l : AdminListResult)
      → Before c
      → (p.list c).1 ≡ ok l
      → names_of_metas l.sessions ≡ names
  pub adopt-Before : (name : Bytes) (c : C) → Before c → Before (p.adopt name c).0
  pub adopt_name :
      (name : Bytes) (c : C) (m : SessionMeta)
      → Before c
      → (p.adopt name c).1 ≡ ok m
      → m.name ≡ name
  pub take_fd-Before : (c : C) → Before c → Before (p.take_fd c).0
  pub snapshot-Before : (name : Bytes) (c : C) → Before c → Before (p.snapshot name c).0
  pub abort-Before : (ns : List Bytes) (c : C) → Before c → Before (p.abort ns c)
  pub commit-Done :
      (ns : List Bytes) (c : C)
      → Before c
      → ((e : Error) × ((p.commit ns c).1 ≡ err e) × Before (p.commit ns c).0)
        ⊎ (((p.commit ns c).1 ≡ ok (length ns)) × Done ns (p.commit ns c).0)
  pub exit-Done : (ns : List Bytes) (c : C) → Done ns c → Done ns (p.exit c)

module _ {Shell V C : Type 0} (p : Peer Shell C) (w : Ways Shell V) (names : List Bytes)
    (k : Keeps p names) where
  -- A session that was received has the name that was asked for.
  abbrev IsReceived : Bytes → C × Result (SessionMeta × Option ℕ) → Type 0
  IsReceived name (c, err e) = k.Before c
  IsReceived name (c, ok (m, fd)) = k.Before c × (m.name ≡ name)

  fd_of-IsReceived :
      (name : Bytes) (m : SessionMeta) (r : C × Result ℕ)
      → m.name ≡ name
      → k.Before r.0
      → IsReceived name (fd_of p w m r)
  fd_of-IsReceived name m (c, err e) n b = b
  fd_of-IsReceived name m (c, ok fd) n b = (b, n)

  if-IsReceived :
      (name : Bytes) (b : Bool) (r r' : C × Result (SessionMeta × Option ℕ))
      → IsReceived name r
      → IsReceived name r'
      → IsReceived name (if b then r else r')
  if-IsReceived name true r r' i i' = i
  if-IsReceived name false r r' i i' = i'

  with_fd-IsReceived :
      (name : Bytes) (r : C × Result SessionMeta)
      → k.Before r.0
      → ((m : SessionMeta) → r.1 ≡ ok m → m.name ≡ name)
      → IsReceived name (with_fd p w r)
  with_fd-IsReceived name (c, err e) b n = b
  with_fd-IsReceived name (c, ok m) b n =
      if-IsReceived name m.alive (fd_of p w m (p.take_fd c)) (c, ok (m, none))
        (fd_of-IsReceived name m (p.take_fd c) (n m refl) (k.take_fd-Before c b)) (b, n m refl)

  receive-IsReceived :
      (name : Bytes) (c : C) → k.Before c → IsReceived name (receive_adopted_session p w name c)
  unfolding receive_adopted_session
  receive-IsReceived name c b =
      with_fd-IsReceived name (p.adopt name c) (k.adopt-Before name c b)
        (λ m e. k.adopt_name name c m b e)

  -- A session is skipped, or prepared under its name.
  abbrev IsOne : Bytes → C × Option (Bytes × V) → Type 0
  IsOne name (c, none) = k.Before c
  IsOne name (c, some (n, v)) = k.Before c × (n ≡ name)

  settle-IsOne :
      (abort name : Bytes) (m : SessionMeta) (r : Result V) (c : C)
      → m.name ≡ name
      → k.Before c
      → IsOne name (settle p w abort m r c)
  settle-IsOne abort name m (err e) c n b = k.abort-Before (abort ∷ []) c b
  settle-IsOne abort name m (ok v) c n b = (b, n)

  retried-IsOne :
      (old name : Bytes) (r : C × Result (SessionMeta × Option ℕ))
      → IsReceived name r
      → IsOne name (retried p w old r)
  retried-IsOne old name (c, err e) b = k.abort-Before (old ∷ []) c b
  retried-IsOne old name (c, ok (m, fd)) (b, n) = settle-IsOne m.name name m (w.lossy m fd []) c n b

  after_snapshot-IsOne :
      (name : Bytes) (m : SessionMeta) (fd : Option ℕ) (r : C × Result (AdminSnapshotResult Shell))
      → m.name ≡ name
      → k.Before r.0
      → IsOne name (after_snapshot p w name m fd r)
  unfolding after_snapshot
  after_snapshot-IsOne name m fd (c, err e) n b =
      retried-IsOne m.name name (receive_adopted_session p w name c) (receive-IsReceived name c b)
  after_snapshot-IsOne name m fd (c, ok snap) n b =
      settle-IsOne m.name name m (adopt_native_or_lossy_state w m fd snap) c n b

  after_received-IsOne :
      (v0 : Bool) (name : Bytes) (r : C × Result (SessionMeta × Option ℕ))
      → IsReceived name r
      → IsOne name (after_received p w v0 name r)
  unfolding after_received
  after_received-IsOne v0 name (c, err e) b = k.abort-Before (name ∷ []) c b
  after_received-IsOne true name (c, ok (m, fd)) (b, n) =
      settle-IsOne name name m (recover_v0 w m fd) c n b
  after_received-IsOne false name (c, ok (m, fd)) (b, n) =
      after_snapshot-IsOne name m fd (p.snapshot m.name c) n (k.snapshot-Before m.name c b)

  -- Where none is skipped, all are prepared.
  abbrev pub IsTaken : List Bytes → C × List (Bytes × V) × List Bytes → Type 0
  IsTaken ns (c, done, []) = k.Before c × (firsts done ≡ ns)
  IsTaken ns (c, done, name ∷ skipped) = k.Before c

  gathered-IsTaken :
      (name : Bytes) (ns : List Bytes) (c : C) (one : Option (Bytes × V))
      (r : C × List (Bytes × V) × List Bytes)
      → IsOne name (c, one)
      → IsTaken ns r
      → IsTaken (name ∷ ns) (gathered p w name one r)
  gathered-IsTaken name ns c none (c', done, []) o (b, t) = b
  gathered-IsTaken name ns c none (c', done, s ∷ skipped) o b = b
  gathered-IsTaken name ns c (some (n, v)) (c', done, []) (o, same) (b, t) =
      (b, ap (λ x. x ∷ firsts done) same ∙ ap (λ xs. name ∷ xs) t)
  gathered-IsTaken name ns c (some (n, v)) (c', done, s ∷ skipped) (o, same) b = b

  IsOne-Before : (name : Bytes) (r : C × Option (Bytes × V)) → IsOne name r → k.Before r.0
  IsOne-Before name (c, none) b = b
  IsOne-Before name (c, some (n, v)) (b, same) = b

  pub take_over-IsTaken :
      (v0 : Bool) (ms : List SessionMeta) (c : C)
      → k.Before c
      → IsTaken (names_of_metas ms) (take_over p w v0 ms c)
  unfolding take_over
  take_over-IsTaken v0 [] c b = (b, refl)
  take_over-IsTaken v0 (m ∷ ms) c b =
      let one = after_received p w v0 m.name (receive_adopted_session p w m.name c) in
      let is_one =
        after_received-IsOne v0 m.name (receive_adopted_session p w m.name c)
          (receive-IsReceived m.name c b) in
      gathered-IsTaken m.name (names_of_metas ms) one.0 one.1 (take_over p w v0 ms one.0) is_one
        (take_over-IsTaken v0 ms one.0 (IsOne-Before m.name one is_one))
