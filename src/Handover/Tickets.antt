-- ===== src/Handover/Tickets.antt =====
-- process.go: how a handoff ends that is committed, or taken back.
use ghostline.Prelude.{
  ℕ, ◌≡◌, inl, inr, refl, ◌∙◌, ap, Bool, true, false, ◌||◌, Option, none, some, is_some, Bool-cases,
}
use ghostline.Errors.{Error}
use ghostline.Migration.{
  Handoff, choose, mark_stopped, decide_migration, observe_decision, release_migration, with_ticket,
  commits, is_current, ticket_result,
}
use ghostline.Migration.Decision.{
  finished, decided-ticket, observe_decided, chosen, release_current, released, stopped_ticket,
}
use ghostline.Handover.{settled_handoff}

-- A handoff that is committed on its ticket, and has met no error, goes through.
pub finished-commit :
    (n : ℕ) (h : Handoff)
    → h.migration ≡ some n
    → (h.tickets n).ticket_error ≡ none
    → (h' : Handoff) × (finished n true h ≡ some (h', none)) × (h'.migrated ≡ true)
unfolding decide_migration choose mark_stopped
finished-commit n h m f =
    let s₁ = decide_migration n true h in
    let s₂ = with_ticket n (mark_stopped (s₁.tickets n)) s₁ in
    let seen : observe_decision n s₁ ≡ s₂ =
      observe_decided n s₁ (
        ap (λ t. is_some t.decision) (decided-ticket n true h) ∙ chosen (h.tickets n).decision _) in
    let t₂ : s₂.tickets n ≡ mark_stopped (s₁.tickets n) =
      stopped_ticket n (mark_stopped (s₁.tickets n)) s₁ in
    let fine : (s₂.tickets n).ticket_error ≡ none =
      ap (λ t. t.ticket_error) t₂ ∙ ap (λ t. t.ticket_error) (decided-ticket n true h) ∙ f in
    (
      released n true s₂,
      ap (release_migration n true) seen
          ∙ release_current n true s₂ (ap (λ t. t.stopped) t₂) m
          ∙ ap (λ r. some (released n true s₂, ticket_result r)) fine,
      ap (λ r. commits true r || h.migrated) f,
    )

commits-false : (o : Option Error) → commits false o ≡ false
commits-false none = refl
commits-false (some e) = refl

release-migrated :
    (n : ℕ) (commit : Bool) (old h : Handoff)
    → h.migrated ≡ old.migrated
    → (settled_handoff old (release_migration n commit h)).migrated ≡ old.migrated
unfolding release_migration
release-migrated n commit old h e = elim (Bool-cases ((h.tickets n).stopped || h.session_done)) [
  | inr w ↦ rw (w, release_migration) refl
  | inl w ↦ elim (Bool-cases (is_current h.migration n)) [
    | inl c ↦ rw (w, c, release_migration) e
    | inr c ↦ rw (w, c, release_migration) e
  ]
]

observe-migrated : (n : ℕ) (h : Handoff) → (observe_decision n h).migrated ≡ h.migrated
unfolding observe_decision
observe-migrated n h = elim (Bool-cases (is_some (h.tickets n).decision)) [
  | inl d ↦ rw (d, observe_decision) refl
  | inr d ↦ rw (d, observe_decision) refl
]

-- One that is taken back leaves the session where it was.
pub abort-migrated :
    (n : ℕ) (h : Handoff) → (settled_handoff h (finished n false h)).migrated ≡ h.migrated
unfolding decide_migration
abort-migrated n h = release-migrated n false h (observe_decision n (decide_migration n false h)) (
    observe-migrated n (decide_migration n false h)
    ∙ ap (λ c. c || h.migrated) (commits-false (h.tickets n).ticket_error))
