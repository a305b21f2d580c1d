-- ===== src/Migration/Decision.antt =====
-- process.go: what a handoff decides.
use ghostline.Prelude.{
  ℕ, ◌≡◌, refl, ap, ◌∙◌, Bool, true, false, not, ◌&&◌, ◌||◌, Option, none, some, ==_refl, is_some,
}
use ghostline.Errors.{Error}
use ghostline.Migration.{
  MigrationTicket, Handoff, MigrationError, ticket_failed, choose, mark_stopped, decide_migration,
  observe_decision, release_migration, with_ticket, commits, first_choice, is_current,
  ticket_result,
}

-- A handoff from its decision on: decided, seen by the copy loop, and released.
abbrev pub finished : ℕ → Bool → Handoff → Option (Handoff × Option MigrationError)
finished n commit s = release_migration n commit (observe_decision n (decide_migration n commit s))

pub chosen : (o : Option Bool) (c : Bool) → is_some (first_choice o c) ≡ true
chosen none c = refl
chosen (some d) c = refl

pub decided-ticket :
    (n : ℕ) (commit : Bool) (s : Handoff)
    → (decide_migration n commit s).tickets n
      ≡ choose (commits commit (s.tickets n).ticket_error) (s.tickets n)
unfolding decide_migration
decided-ticket n commit s = rw (==_refl n) refl

pub observe_decided :
    (n : ℕ) (s : Handoff)
    → is_some (s.tickets n).decision ≡ true
    → observe_decision n s ≡ with_ticket n (mark_stopped (s.tickets n)) s
unfolding observe_decision
observe_decided n s h = rw (h, observe_decision) refl

-- The state that the end of the current handoff leaves.
abbrev pub released : ℕ → Bool → Handoff → Handoff
released n commit s = record s {
  migration = none;
  gate = false;
  master_open = s.master_open && not (commits commit (s.tickets n).ticket_error);
}

pub release_current :
    (n : ℕ) (commit : Bool) (s : Handoff)
    → (s.tickets n).stopped ≡ true
    → s.migration ≡ some n
    → release_migration n commit s
      ≡ some (released n commit s, ticket_result (s.tickets n).ticket_error)
unfolding release_migration
release_current n commit s h m =
    rw (h, ap (λ o. is_current o n) m ∙ ==_refl n, release_migration) refl

pub stopped_ticket : (n : ℕ) (t : MigrationTicket) (s : Handoff) → (with_ticket n t s).tickets n ≡ t
stopped_ticket n t s = rw (==_refl n) refl

and_true : (b : Bool) → b && true ≡ b
and_true true = refl
and_true false = refl

-- When the copy loop has reported an error, the handoff in progress ends with that error, whatever was asked
-- for: the session is not marked as handed off, the master stays as it was, and the next
-- handoff can begin.
pub finished-failed :
    (n : ℕ) (commit : Bool) (s : Handoff) (e : Error)
    → s.migration ≡ some n
    → (s.tickets n).ticket_error ≡ some e
    → (s' : Handoff) × (finished n commit s ≡ some (s', some (ticket_failed e)))
      × (s'.migrated ≡ s.migrated)
      × (s'.master_open ≡ s.master_open)
      × (s'.migration ≡ none)
      × (s'.gate ≡ false)
unfolding decide_migration choose mark_stopped
finished-failed n commit s e m f =
    let s₁ = decide_migration n commit s in
    let s₂ = with_ticket n (mark_stopped (s₁.tickets n)) s₁ in
    let seen : observe_decision n s₁ ≡ s₂ = observe_decided n s₁ (
      ap (λ t. is_some t.decision) (decided-ticket n commit s) ∙ chosen (s.tickets n).decision _) in
    let t₂ : s₂.tickets n ≡ mark_stopped (s₁.tickets n) =
      stopped_ticket n (mark_stopped (s₁.tickets n)) s₁ in
    let failed : (s₂.tickets n).ticket_error ≡ some e =
      ap (λ t. t.ticket_error) t₂ ∙ ap (λ t. t.ticket_error) (decided-ticket n commit s) ∙ f in
    (
      released n commit s₂,
      ap (release_migration n commit) seen
          ∙ release_current n commit s₂ (ap (λ t. t.stopped) t₂) m
          ∙ ap (λ r. some (released n commit s₂, ticket_result r)) failed,
      ap (λ r. commits commit r || s.migrated) f,
      ap (λ r. s.master_open && not (commits commit r)) failed ∙ and_true s.master_open,
      refl,
      refl,
    )
