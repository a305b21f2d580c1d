-- ===== src/Session/Settled.antt =====
-- process.go: a session that stops while another server is taking it over.
use ghostline.Prelude.{
  ℕ, ◌≡◌, refl, ◌∙◌, ap, Bool, false, ◌||◌, Option, none, some, is_some, if◌then◌else◌, ==_refl,
  arith,
}
use ghostline.Errors.{Error}
use ghostline.Migration.{
  Handoff, MigrationTicket, ticket_failed, mark_stable, mark_stopped, choose, first_error,
  decide_migration, release_migration, commits, ticket_result,
}
use ghostline.Migration.Decision.{release_current, released, decided-ticket}
use ghostline.Session.{Session, WaitError}
use ghostline.Session.CopyLoop.{
  record_exit, settle, settle_found, finish_copy, end_copy, change_ticket, session_stopped,
}

record_exit-handoff :
    {V : Type 0} (waited : Option WaitError) (s : Session V)
    → (record_exit waited s).handoff ≡ s.handoff
unfolding record_exit
record_exit-handoff waited s = ground arith

abbrev refused_ticket : MigrationTicket → MigrationTicket
refused_ticket t = mark_stopped (choose false (mark_stable (some session_stopped) t))

settle_undecided :
    {V : Type 0} (s : Session V) (n : ℕ)
    → s.handoff.migration ≡ some n
    → (s.handoff.tickets n).decision ≡ none
    → settle s ≡ change_ticket refused_ticket n s
unfolding settle
settle_undecided s n e d =
    ap (λ o. settle_found o s) e
    ∙ ap (λ o. if is_some o then s else change_ticket refused_ticket n s) d

first_error-some : (o : Option Error) (e : Error) → (f : Error) × (first_error o (some e) ≡ some f)
first_error-some none e = (e, refl)
first_error-some (some f) e = (f, refl)

-- A session that stops while a handoff waits for its decision refuses the handoff: whatever is
-- asked for then, finishing does not wait, it reports an error, the session is not marked as
-- handed off, and the gate opens.
pub end_copy-refuses :
    {V : Type 0} (waited : Option WaitError) (s : Session V) (n : ℕ) (commit : Bool)
    → s.handoff.migration ≡ some n
    → (s.handoff.tickets n).decision ≡ none
    → (h : Handoff) × (e : Error) × (release_migration n commit
          (decide_migration n commit (end_copy waited s).handoff)
        ≡ some (h, some (ticket_failed e)))
      × (h.migrated ≡ s.handoff.migrated)
      × (h.migration ≡ none)
      × (h.gate ≡ false)
unfolding end_copy finish_copy decide_migration choose mark_stopped mark_stable
end_copy-refuses waited s n commit e d =
    let s₁ = record_exit waited s in
    let same = record_exit-handoff waited s in
    let h₂ = (end_copy waited s).handoff in
    let settled =
      settle_undecided s₁ n (ap (λ h. h.migration) same ∙ e)
        (ap (λ h. (h.tickets n).decision) same ∙ d) in
    let (f, g) = first_error-some (s.handoff.tickets n).ticket_error session_stopped in
    let ticket : (h₂.tickets n) ≡ refused_ticket (s.handoff.tickets n) =
      ap (λ s'. s'.handoff.tickets n) settled
      ∙ rw (==_refl n) (ap (λ h. refused_ticket (h.tickets n)) same) in
    let failed : (h₂.tickets n).ticket_error ≡ some f = ap (λ t. t.ticket_error) ticket ∙ g in
    let h₃ = decide_migration n commit h₂ in
    let failed₃ : (h₃.tickets n).ticket_error ≡ some f =
      ap (λ t. t.ticket_error) (decided-ticket n commit h₂) ∙ failed in
    (
      released n commit h₃,
      f,
      release_current n commit h₃
            (ap (λ t. t.stopped) (decided-ticket n commit h₂) ∙ ap (λ t. t.stopped) ticket)
            (ap (λ s'. s'.handoff.migration) settled ∙ ap (λ h. h.migration) same ∙ e)
          ∙ ap (λ r. some (released n commit h₃, ticket_result r)) failed₃,
      ap (λ r. commits commit r || h₂.migrated) failed
          ∙ ap (λ s'. s'.handoff.migrated) settled
          ∙ ap (λ h. h.migrated) same,
      refl,
      refl,
    )
