-- ===== src/Migrate/Ownership.antt =====
-- migrate.go and server.go: every session has one owner, whatever fails on the way.
use ghostline.Prelude.{
  ◌≡◌, ◌⊎◌, inl, inr, refl, ◌∙◌, ap, none, List, [], Bytes, length, if◌then◌else◌, is_some, ◌||◌,
  Option-cases,
}
use ghostline.Prelude.Names.{find}
use ghostline.Errors.{Error, ok, err}
use ghostline.Handover.{Source}
use ghostline.Handover.Prepared.{IsSource, names_of}
use ghostline.Handover.Commit.{KeepsSessions, names_one}
use ghostline.Migrate.{
  install, with_master, Ways, Target, Migrated, adopt_sessions, firsts, seconds,
}
use ghostline.Migrate.Transaction.{IsMoved, IsUndone, adopt_sessions_outcome}
use ghostline.Migrate.Peers.{Surroundings, source_peer, IsNamed}
use ghostline.Migrate.Requests.{IsApart, all_names, Before}
use ghostline.Handover.{disconnect}
use ghostline.Handover.Aborts.{disconnect-KeepsSessions}
use ghostline.Migrate.Names.{names_one-listed, find-install}
use ghostline.Migrate.Part.{source_keeps}

module _ {Shell : Type 0} (x : Surroundings Shell) (apart : IsApart x) (s₀ : Source)
    (named : IsNamed x s₀.sessions) where
  -- Nothing has gone over: the new hub is as it was, and the old server has all of its sessions.
  abbrev pub StaysWithSource : {V : Type 0} → Target V → Migrated Source V → Type 0
  StaysWithSource hub r =
      (e : Error) × (r.result ≡ err e)
      × (r.hub ≡ hub)
      × (r.running ≡ [])
      × KeepsSessions s₀ (disconnect r.peer)

  -- Everything has gone over: a state for each listed session is in the new hub, which has each
  -- session besides its own; a copy loop was started for each state that has a master, and for no
  -- other; and the old server has none.
  abbrev pub GoesToTarget : {V : Type 0} → Ways Shell V → Target V → Migrated Source V → Type 0
  GoesToTarget {V} w hub r =
      (done : List (Bytes × V)) × (firsts done ≡ all_names x apart s₀ named)
      × (r.result ≡ ok (length (all_names x apart s₀ named)))
      × (r.hub.sessions ≡ install done hub.sessions)
      × (r.running ≡ with_master w.has_master (seconds done))
      × ((asked : Bytes)
          → (is_some (find asked r.hub.sessions)
              ≡ (is_some (find asked s₀.sessions) || is_some (find asked hub.sessions)))
            × (find asked (disconnect r.peer).sessions ≡ none))

  abbrev moved_from : {V : Type 0} → Ways Shell V → Target V → Migrated Source V
  moved_from w hub = adopt_sessions (source_peer x) w hub s₀

  -- What is left of the old server's map.
  none_left :
      (asked : Bytes) (names : List Bytes)
      → names ≡ all_names x apart s₀ named
      → (if names_one asked names then none else find asked s₀.sessions) ≡ none
  none_left asked names same =
      ap (λ ns. if names_one asked ns then none else find asked s₀.sessions) same
      ∙ ap (λ b. if b then none else find asked s₀.sessions)
          (names_one-listed x asked s₀.sessions named)
      ∙ elim (Option-cases (find asked s₀.sessions)) [ inl f ↦ rw f refl | inr (k, f) ↦ rw f refl ]

  moved-GoesToTarget :
      {V : Type 0}
      → (w : Ways Shell V) (hub : Target V) (r : Migrated Source V)
      → IsMoved (source_peer x) w (all_names x apart s₀ named) (source_keeps x apart s₀ named) hub r
      → GoesToTarget w hub r
  moved-GoesToTarget w hub r
        (done, same, counted, installed, running, closes, (batch, batch_same, over)) =
      (
        done,
        same,
        counted,
        ap (λ h. h.sessions) installed,
        running,
        λ asked. (
          ap (λ h. is_some (find asked h.sessions)) installed
              ∙ find-install asked done hub.sessions
              ∙ ap (λ ns. names_one asked ns || is_some (find asked hub.sessions)) same
              ∙ ap (λ b. b || is_some (find asked hub.sessions))
                  (names_one-listed x asked s₀.sessions named),
          ap (find asked) (disconnect-KeepsSessions r.peer).0
              ∙ over.0 asked
              ∙ none_left asked (names_of batch) batch_same,
        ),
      )

  undone-StaysWithSource :
      {V : Type 0}
      → (w : Ways Shell V) (hub : Target V) (r : Migrated Source V)
      → IsUndone
          (source_peer x)
          w
          (all_names x apart s₀ named)
          (source_keeps x apart s₀ named)
          hub
          r
      → StaysWithSource hub r
  undone-StaysWithSource w hub r (e, failed, same, idle, (kept, migrated, v)) =
      let (e₁, m₁) = disconnect-KeepsSessions r.peer in
      (e, failed, same, idle, (e₁ ∙ kept, λ k. m₁ k ∙ migrated k))

  -- The sessions of the old server stand under their names, and everything pending is the
  -- adoption of the session of its name: a migration from it, every request of which is answered
  -- or given up before the server has acted on it, fails, with the new hub as it was and no copy
  -- loop started, and once its connection has ended the old server has every session where it
  -- was; or it succeeds with the count of the listed sessions, with a state for each in the new
  -- hub and a copy loop for just those states that have a master, the new hub finds a session
  -- under a name just where the old server or itself did before, and the old server finds none.
  -- Between two requests anything may happen at the old server that leaves its sessions and its
  -- pending adoptions in place.
  pub one_owner :
      {V : Type 0}
      → (w : Ways Shell V) (hub : Target V) → IsSource x.name_of s₀
      → StaysWithSource hub (adopt_sessions (source_peer x) w hub s₀)
        ⊎ GoesToTarget w hub (adopt_sessions (source_peer x) w hub s₀)
  one_owner w hub v =
      let start : Before x apart s₀ named s₀ = (refl, λ k. refl, v) in
      elim (adopt_sessions_outcome (source_peer x) w (all_names x apart s₀ named)
        (source_keeps x apart s₀ named) hub s₀ start) [
          | inl u ↦ inl (undone-StaysWithSource w hub (moved_from w hub) u)
          | inr m ↦ inr (moved-GoesToTarget w hub (moved_from w hub) m)
        ]
