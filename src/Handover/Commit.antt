-- ===== src/Handover/Commit.antt =====
-- server.go: a commit hands over all of its sessions or none.
use ghostline.Prelude.{
  ℕ, suc, ◌≡◌, ◌⊎◌, inl, inr, refl, sym, ◌∙◌, ap, Bool, true, false, ◌&&◌, ◌||◌, ◌==◌, Option, none,
  some, List, [], ◌∷◌, Bytes, length, bytes_eq, bytes_eq_refl, if◌then◌else◌, arith, Bool-cases,
  Option-cases,
}
use ghostline.Prelude.Maps.{update}
use ghostline.Prelude.Names.{find, store, discard, find-store, find-discard}
use ghostline.Errors.{Error}
use ghostline.Migration.{Handoff, MigrationError, is_current}
use ghostline.Handover.{
  Adoption, Source, AdminError, AdminReply, refuses, committed, of_migration, not_prepared,
  prepared, preflight, trouble, ticket_trouble, resolve_adoption, resolve_all, take_back, drop_all,
  run_batch, finish_batch, admin_batch, forget, end_batch_if_idle, is_idle,
}
use ghostline.Handover.Tickets.{finished-commit, abort-migrated}
use ghostline.Handover.Prepared.{
  IsSource, IsBatch, names_of, prepared-IsBatch, IsBatch-Misses, Ready, preflight-Ready,
  Ready-update,
}

abbrev pub has_identity : ℕ → List Adoption → Bool
has_identity k [] = false
has_identity k (a ∷ rest) = (a.identity == k) || has_identity k rest

current_of : (o : Option ℕ) (n : ℕ) → is_current o n ≡ true → o ≡ some n
current_of none n e = cc
current_of (some m) n e = ap some (ground (arith, e))

-- What the preflight of one adoption means.
trouble-none :
    (current : Bool) (e : Option Error)
    → ticket_trouble current e ≡ none
    → (current ≡ true) × (e ≡ none)
trouble-none current (some e) h = cc
trouble-none true none h = (refl, refl)
trouble-none false none h = cc

-- One session of a batch whose preflight passes.
resolve_adoption-commit :
    (a : Adoption) (s : Source)
    → trouble s a ≡ none
    → (h : Handoff) × (resolve_adoption a true s
        ≡ (record s { handoffs = update s.handoffs a.identity h }, none))
      × (h.migrated ≡ true)
unfolding resolve_adoption
resolve_adoption-commit a s t =
    let h₀ = s.handoffs a.identity in
    let (current, fine) =
      trouble-none (is_current h₀.migration a.ticket) (h₀.tickets a.ticket).ticket_error t in
    let (h, e, m) = finished-commit a.ticket h₀ (current_of h₀.migration a.ticket current) fine in
    (h, rw e refl, m)

pub or_true : (b : Bool) → b || true ≡ true
or_true true = refl
or_true false = refl

migrated_next :
    (k identity : ℕ) (h : Handoff) (s : Source) (b : Bool)
    → h.migrated ≡ true
    → (b || ((update s.handoffs identity h) k).migrated)
      ≡ ((identity == k) || b || (s.handoffs k).migrated)
migrated_next k identity h s b m = elim (Bool-cases (identity == k)) [
  | inl e ↦ rw (e, m) (or_true b)
  | inr e ↦ rw e refl
]

-- A batch whose preflight passes: nothing fails, and exactly its sessions are handed over.
resolve_all-commit :
    (name_of : ℕ → Bytes) (k : ℕ) (seen : List (Bytes × Unit {0})) (batch : List Adoption)
    (s : Source)
    → IsBatch name_of seen batch
    → Ready s batch
    → let r = resolve_all true batch s in
      (r.1 ≡ none)
      × (r.0.sessions ≡ s.sessions)
      × ((r.0.handoffs k).migrated ≡ (has_identity k batch || (s.handoffs k).migrated))
unfolding resolve_all
resolve_all-commit name_of k seen [] s v r = (refl, refl, refl)
resolve_all-commit name_of k seen (a ∷ rest) s (unseen, known, later) (t, ready) =
    let (h, e, m) = resolve_adoption-commit a s t in
    let s₁ = record s { handoffs = update s.handoffs a.identity h } in
    let misses =
      IsBatch-Misses name_of a.identity (store a.name tt seen) rest later
        (find-store a.name (name_of a.identity) tt seen ∙ rw (known, bytes_eq_refl a.name) refl) in
    let (fine, same, migrated) =
      resolve_all-commit name_of k (store a.name tt seen) rest s₁ later
        (Ready-update s a.identity h rest misses ready) in
    rw (e, fine) (refl, same, migrated ∙ migrated_next k a.identity h s (has_identity k rest) m)

-- An adoption that is given back.
pub resolve_adoption-abort :
    (k : ℕ) (a : Adoption) (s : Source)
    → (((resolve_adoption a false s).0.handoffs k).migrated ≡ (s.handoffs k).migrated)
      × ((resolve_adoption a false s).0.sessions ≡ s.sessions)
unfolding resolve_adoption
resolve_adoption-abort k a s = (
  elim (Bool-cases (a.identity == k)) [
    | inl e ↦ rw e (
        abort-migrated a.ticket (s.handoffs a.identity)
        ∙ ap (λ n. (s.handoffs n).migrated) (ground (arith, e)))
    | inr e ↦ rw e refl
  ],
  refl,
)

-- What the loops that remove entries from the maps leave alone.
take_back-migrated :
    (k : ℕ) (batch : List Adoption) (s : Source)
    → let s' = take_back false batch s in
      (s'.sessions ≡ s.sessions) × ((s'.handoffs k).migrated ≡ (s.handoffs k).migrated)
unfolding take_back
take_back-migrated k [] s = (refl, refl)
take_back-migrated k (a ∷ rest) s =
    elim (Bool-cases (is_current (s.handoffs a.identity).migration a.ticket)) [
      | inr c ↦ rw (c, take_back) (take_back-migrated k rest (forget a.name s))
      | inl c ↦
          let s₁ = (resolve_adoption a false s).0 in
          let own = resolve_adoption-abort k a s in
          let (same, kept) = take_back-migrated k rest (forget a.name s₁) in
          rw (c, take_back) (same ∙ own.1, kept ∙ own.0)
    ]

abbrev pub names_one : Bytes → List Bytes → Bool
names_one asked [] = false
names_one asked (name ∷ names) = bytes_eq name asked || names_one asked names

drop_all-sessions :
    (asked : Bytes) (batch : List Adoption) (s : Source)
    → find asked (drop_all true batch s).sessions
      ≡ (if names_one asked (names_of batch) then none else find asked s.sessions)
unfolding drop_all
drop_all-sessions asked [] s = refl
drop_all-sessions asked (a ∷ rest) s =
    drop_all-sessions asked rest (record (forget a.name s) { sessions = discard a.name s.sessions })
    ∙ ground (arith, find-discard a.name asked s.sessions)

drop_all-handoffs :
    (commit : Bool) (batch : List Adoption) (s : Source)
    → (drop_all commit batch s).handoffs ≡ s.handoffs
unfolding drop_all
drop_all-handoffs commit [] s = refl
drop_all-handoffs commit (a ∷ rest) s = drop_all-handoffs commit rest _

-- Every session is where it was.
abbrev pub KeepsSessions : Source → Source → Type 0
KeepsSessions s s' =
    (s'.sessions ≡ s.sessions) × ((k : ℕ) → (s'.handoffs k).migrated ≡ (s.handoffs k).migrated)

-- The reply is an error, and every session is where it was.
abbrev pub Refuses : Source → Source × AdminReply → Type 0
Refuses s r = (e : AdminError) × (r.1 ≡ refuses e) × KeepsSessions s r.0

-- The sessions of the batch, and no others, have gone over and are no longer in the hub.
abbrev pub HandsOver : List Adoption → Source → Source → Type 0
HandsOver batch s s' =
    ((asked : Bytes)
      → find asked s'.sessions
        ≡ (if names_one asked (names_of batch) then none else find asked s.sessions))
    × ((k : ℕ) → (s'.handoffs k).migrated ≡ (has_identity k batch || (s.handoffs k).migrated))

ends-KeepsSessions : (s s' : Source) → KeepsSessions s s' → KeepsSessions s (end_batch_if_idle s')
ends-KeepsSessions s s' k = elim (Bool-cases (s'.batch_frozen && is_idle s'.pending)) [
  | inl b ↦ rw b k
  | inr b ↦ rw b k
]

ends-HandsOver :
    (batch : List Adoption) (s s' : Source)
    → HandsOver batch s s'
    → HandsOver batch s (end_batch_if_idle s')
ends-HandsOver batch s s' k = elim (Bool-cases (s'.batch_frozen && is_idle s'.pending)) [
  | inl b ↦ rw b k
  | inr b ↦ rw b k
]

take_back-KeepsSessions :
    (batch : List Adoption) (s : Source) → KeepsSessions s (take_back false batch s)
take_back-KeepsSessions batch s =
    ((take_back-migrated 0 batch s).0, λ k. (take_back-migrated k batch s).1)

drop_all-HandsOver :
    (batch : List Adoption) (s s₁ : Source)
    → s₁.sessions ≡ s.sessions
    → ((k : ℕ) → (s₁.handoffs k).migrated ≡ (has_identity k batch || (s.handoffs k).migrated))
    → HandsOver batch s (drop_all true batch s₁)
drop_all-HandsOver batch s s₁ same migrated = (
  λ asked.
      drop_all-sessions asked batch s₁
      ∙ ap (λ m. if names_one asked (names_of batch) then none else find asked m) same,
  λ k. ap (λ h. (h k).migrated) (drop_all-handoffs true batch s₁) ∙ migrated k,
)

-- A batch that is resolved without an error.
finish_batch-HandsOver :
    (batch : List Adoption) (s : Source) (r : Source × Option MigrationError)
    → r.1 ≡ none
    → r.0.sessions ≡ s.sessions
    → ((k : ℕ) → (r.0.handoffs k).migrated ≡ (has_identity k batch || (s.handoffs k).migrated))
    → ((finish_batch true batch r).1 ≡ committed (length batch))
      × HandsOver batch s (finish_batch true batch r).0
finish_batch-HandsOver batch s (s₁, some e) fine same migrated = absurd (cc)
finish_batch-HandsOver batch s (s₁, none) fine same migrated = (
  refl,
  ends-HandsOver batch s (drop_all true batch s₁) (drop_all-HandsOver batch s s₁ same migrated),
)

run_batch_outcome :
    (name_of : ℕ → Bytes) (batch : List Adoption) (s : Source)
    → IsBatch name_of [] batch
    → Refuses s (run_batch true batch s)
      ⊎ (((run_batch true batch s).1 ≡ committed (length batch))
          × HandsOver batch s (run_batch true batch s).0)
unfolding run_batch
run_batch_outcome name_of batch s v = elim (Option-cases (preflight s batch)) [
  | inr (e, p) ↦ inl (
      rw (p, run_batch)
        (
          of_migration e,
          refl,
          ends-KeepsSessions s (take_back false batch s) (take_back-KeepsSessions batch s),
        ))
  | inl p ↦
      let ready = preflight-Ready s batch p in
      let done = λ (k : ℕ). resolve_all-commit name_of k [] batch s v ready in
      inr (
        rw (p, run_batch)
          (finish_batch-HandsOver batch s (resolve_all true batch s) (done 0).0 (done 0).1
            (λ k. (done k).2)))
]

length-names_of : (batch : List Adoption) → length (names_of batch) ≡ length batch
length-names_of [] = refl
length-names_of (a ∷ rest) = ap suc (length-names_of rest)

-- Where everything pending is the adoption of the session of its name: a commit request is refused,
-- and every session is where it was; or the names are those of a batch of pending adoptions,
-- the reply counts them, the hub finds every session but those named, and the sessions that
-- have gone over are those of the batch and those that had gone before.
pub commit_outcome :
    (name_of : ℕ → Bytes) (names : List Bytes) (s : Source)
    → IsSource name_of s
    → Refuses s (admin_batch true names s)
      ⊎ ((batch : List Adoption) × (prepared names [] s.pending ≡ some batch)
          × (names_of batch ≡ names)
          × ((admin_batch true names s).1 ≡ committed (length names))
          × HandsOver batch s (admin_batch true names s).0)
unfolding admin_batch
commit_outcome name_of names s v = elim (Option-cases (prepared names [] s.pending)) [
  | inl p ↦ inl (rw (p, admin_batch) (not_prepared, refl, (refl, λ k. refl)))
  | inr (batch, p) ↦
      let (fits, known) = prepared-IsBatch name_of names [] s batch v p in
      elim (run_batch_outcome name_of batch s fits) [
        | inl refused ↦ inl (rw (p, admin_batch) refused)
        | inr (replied, over) ↦
            let counted = replied ∙ ap committed (sym (length-names_of batch) ∙ ap length known) in
            inr (batch, p, known, rw (p, admin_batch) counted, rw (p, admin_batch) over)
      ]
]
