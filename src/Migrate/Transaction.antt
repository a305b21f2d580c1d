-- ===== src/Migrate/Transaction.antt =====
-- migrate.go: what a migration leaves behind, for any other server that keeps to its part.
use ghostline.Prelude.{
  ℕ, ◌≡◌, ◌⊎◌, inl, inr, refl, sym, ◌∙◌, ap, subst, Bool, true, false, List, [], ◌∷◌, Bytes, suc,
  ==_refl, length, ◌==◌, if◌then◌else◌, not, ◌&&◌,
}
use ghostline.Errors.{Error, failure, closed, Result, ok, err}
use ghostline.Migrate.{
  with_master, SessionMeta, AdminListResult, Peer, Ways, Target, Migrated, is_blank, seconds,
  firsts, install, take_over, roll_back, after_commit, after_taken, after_handoff, after_list,
  handoff_of, adopt_sessions,
}
use ghostline.Migrate.Attempts.{Keeps, names_of_metas, IsTaken, take_over-IsTaken}

module _ {Shell V C : Type 0} (p : Peer Shell C) (w : Ways Shell V) (names : List Bytes)
    (k : Keeps p names) where
  -- Nothing has gone over: an error, the hub as it was, and every prepared state closed.
  abbrev pub IsUndone : Target V → Migrated C V → Type 0
  IsUndone hub r =
      (e : Error) × (r.result ≡ err e) × (r.hub ≡ hub) × (r.running ≡ []) × k.Before r.peer

  -- Everything has gone over: a state for each listed session is in the hub, and a copy loop runs
  -- for each that has a master.
  abbrev pub IsMoved : Target V → Migrated C V → Type 0
  IsMoved hub r =
      (done : List (Bytes × V)) × (firsts done ≡ names)
      × (r.result ≡ ok (length names))
      × (r.hub ≡ record hub { sessions = install done hub.sessions })
      × (r.running ≡ with_master w.has_master (seconds done))
      × (r.closed_states ≡ [])
      × k.Done names r.peer

  abbrev pub IsAllOrNothing : Target V → Migrated C V → Type 0
  IsAllOrNothing hub r = IsUndone hub r ⊎ IsMoved hub r

  if-IsAllOrNothing :
      (hub : Target V) (b : Bool) (r r' : Migrated C V)
      → IsAllOrNothing hub r
      → IsAllOrNothing hub r'
      → IsAllOrNothing hub (if b then r else r')
  if-IsAllOrNothing hub true r r' o o' = o
  if-IsAllOrNothing hub false r r' o o' = o'

  abbrev number : Result ℕ → ℕ
  number (err e) = 0
  number (ok n) = n

  roll_back-IsUndone :
      (hub : Target V) (done : List (Bytes × V)) (e : Error) (c : C)
      → k.Before c
      → IsUndone hub (roll_back p w hub done e c)
  roll_back-IsUndone hub [] e c b = (e, refl, refl, refl, b)
  roll_back-IsUndone hub (d ∷ done) e c b =
      (e, refl, refl, refl, k.abort-Before (firsts (d ∷ done)) c b)

  length-firsts : (done : List (Bytes × V)) → length (firsts done) ≡ length done
  length-firsts [] = refl
  length-firsts ((n, v) ∷ done) = ap suc (length-firsts done)

  after_commit_outcome :
      (hub : Target V) (done : List (Bytes × V)) (r : C × Result ℕ)
      → firsts done ≡ names
      → ((e : Error) × (r.1 ≡ err e) × k.Before r.0)
        ⊎ ((r.1 ≡ ok (length (firsts done))) × k.Done (firsts done) r.0)
      → IsAllOrNothing hub (after_commit p w hub done r)
  after_commit_outcome hub done (c, err e) same (inl (e', q, b)) =
      inl (roll_back-IsUndone hub done e c b)
  after_commit_outcome hub done (c, err e) same (inr (q, d)) = absurd (cc)
  after_commit_outcome hub done (c, ok n) same (inl (e', q, b)) = absurd (cc)
  after_commit_outcome hub done (c, ok n) same (inr (q, d)) =
      let counted : n ≡ length done = ap number q ∙ length-firsts done in
      inr (
        rw (ap (λ x. x == length done) counted, ==_refl (length done))
          (
            done,
            same,
            ap ok (counted ∙ sym (length-firsts done) ∙ ap length same),
            refl,
            refl,
            refl,
            subst (λ ns. k.Done ns (p.exit c)) same (k.exit-Done (firsts done) c d),
          ))

  after_taken_outcome :
      (hub : Target V) (r : C × List (Bytes × V) × List Bytes)
      → IsTaken p w names k names r
      → IsAllOrNothing hub (after_taken p w hub r)
  after_taken_outcome hub (c, done, s ∷ skipped) b =
      inl (roll_back-IsUndone hub done (failure []) c b)
  after_taken_outcome hub (c, done, []) (b, same) =
      after_commit_outcome hub done (p.commit (firsts done) c) same
        (k.commit-Done (firsts done) c b)

  after_handoff_outcome :
      (hub : Target V) (ms : List SessionMeta) (c : C) (v : Result Bool)
      → names_of_metas ms ≡ names
      → k.Before c
      → IsAllOrNothing hub (after_handoff p w hub ms c v)
  after_handoff_outcome hub ms c (err e) same b = inl (roll_back-IsUndone hub [] e c b)
  after_handoff_outcome hub ms c (ok v0) same b = after_taken_outcome hub (take_over p w v0 ms c) (
      subst (λ ns. IsTaken p w names k ns (take_over p w v0 ms c)) same
        (take_over-IsTaken p w names k v0 ms c b))

  after_list_outcome :
      (hub : Target V) (r : C × Result AdminListResult)
      → k.Before r.0
      → ((l : AdminListResult) → r.1 ≡ ok l → names_of_metas l.sessions ≡ names)
      → IsAllOrNothing hub (after_list p w hub r)
  after_list_outcome hub (c, err e) b n = inl (roll_back-IsUndone hub [] e c b)
  after_list_outcome hub (c, ok l) b n =
      after_handoff_outcome hub l.sessions c (handoff_of l) (n l refl) b

  pub adopt_sessions_outcome :
      (hub : Target V) (c : C) → k.Before c → IsAllOrNothing hub (adopt_sessions p w hub c)
  unfolding adopt_sessions
  adopt_sessions_outcome hub c b =
      if-IsAllOrNothing hub hub.is_closed (roll_back p w hub [] closed c) _
        (inl (roll_back-IsUndone hub [] closed c b))
        (if-IsAllOrNothing hub (not (is_blank hub.sessions && is_blank hub.pending))
          (roll_back p w hub [] (failure []) c) _ (inl (roll_back-IsUndone hub [] (failure []) c b))
          (after_list_outcome hub (p.list c) (k.list-Before c b) (λ l e. k.list_names c l b e)))
