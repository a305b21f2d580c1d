-- ===== src/Handover/Pending.antt =====
-- server.go: through a commit or an abort, what is pending stays the adoption of the session of
-- its name.
use ghostline.Prelude.{
  ℕ, inl, inr, Bool, true, false, ◌&&◌, Option, none, some, List, [], ◌∷◌, Bytes, if◌then◌else◌,
  Option-cases,
}
use ghostline.Prelude.Names.{discard}
use ghostline.Migration.{MigrationError, is_current}
use ghostline.Handover.{
  Adoption, Source, resolve_adoption, resolve_all, take_back, drop_all, admin_batch, run_batch,
  finish_batch, prepared, forget, end_batch_if_idle, is_idle, preflight,
}
use ghostline.Handover.Prepared.{IsSource}
use ghostline.Handover.Keeps.{IsSource-discard}

resolve_adoption-IsSource :
    (name_of : ℕ → Bytes) (a : Adoption) (commit : Bool) (s : Source)
    → IsSource name_of s
    → IsSource name_of (resolve_adoption a commit s).0
unfolding resolve_adoption
resolve_adoption-IsSource name_of a commit s v = v

resolve_all-IsSource :
    (name_of : ℕ → Bytes) (commit : Bool) (batch : List Adoption) (s : Source)
    → IsSource name_of s
    → IsSource name_of (resolve_all commit batch s).0
unfolding resolve_all
resolve_all-IsSource name_of commit [] s v = v
resolve_all-IsSource name_of commit (a ∷ rest) s v =
    resolve_all-IsSource name_of commit rest (resolve_adoption a commit s).0
      (resolve_adoption-IsSource name_of a commit s v)

if-IsSource :
    (name_of : ℕ → Bytes) (b : Bool) (s s' : Source)
    → IsSource name_of s
    → IsSource name_of s'
    → IsSource name_of (if b then s else s')
if-IsSource name_of true s s' v v' = v
if-IsSource name_of false s s' v v' = v'

take_back-IsSource :
    (name_of : ℕ → Bytes) (drops : Bool) (batch : List Adoption) (s : Source)
    → IsSource name_of s
    → IsSource name_of (take_back drops batch s)
unfolding take_back
take_back-IsSource name_of drops [] s v = v
take_back-IsSource name_of drops (a ∷ rest) s v =
    let s₁ =
      if is_current (s.handoffs a.identity).migration a.ticket
      then (resolve_adoption a false s).0
      else s in
    let s₂ = forget a.name s₁ in
    let v₂ = IsSource-discard name_of s₁ a.name (
      if-IsSource name_of (is_current (s.handoffs a.identity).migration a.ticket)
        (resolve_adoption a false s).0 s (resolve_adoption-IsSource name_of a false s v) v) in
    let dropped = record s₂ { sessions = discard a.name s₂.sessions } in
    let b = drops && (s₂.handoffs a.identity).migrated in
    take_back-IsSource name_of drops rest (if b then dropped else s₂)
      (if-IsSource name_of b dropped s₂ v₂ v₂)

drop_all-IsSource :
    (name_of : ℕ → Bytes) (commit : Bool) (batch : List Adoption) (s : Source)
    → IsSource name_of s
    → IsSource name_of (drop_all commit batch s)
unfolding drop_all
drop_all-IsSource name_of commit [] s v = v
drop_all-IsSource name_of commit (a ∷ rest) s v =
    drop_all-IsSource name_of commit rest
      (record (forget a.name s) {
        sessions = if commit then discard a.name s.sessions else s.sessions;
      })
      (IsSource-discard name_of s a.name v)

ends-IsSource :
    (name_of : ℕ → Bytes) (s : Source) → IsSource name_of s → IsSource name_of (end_batch_if_idle s)
ends-IsSource name_of s v =
    if-IsSource name_of (s.batch_frozen && is_idle s.pending) (record s { batch_frozen = false }) s
      v v

finish_batch-IsSource :
    (name_of : ℕ → Bytes) (batch : List Adoption) (r : Source × Option MigrationError)
    → IsSource name_of r.0
    → IsSource name_of (finish_batch true batch r).0
finish_batch-IsSource name_of batch (s, some e) v =
    ends-IsSource name_of (take_back true batch s) (take_back-IsSource name_of true batch s v)
finish_batch-IsSource name_of batch (s, none) v =
    ends-IsSource name_of (drop_all true batch s) (drop_all-IsSource name_of true batch s v)

pub admin_batch-IsSource :
    (name_of : ℕ → Bytes) (names : List Bytes) (s : Source)
    → IsSource name_of s
    → IsSource name_of (admin_batch true names s).0
unfolding admin_batch run_batch
admin_batch-IsSource name_of names s v = elim (Option-cases (prepared names [] s.pending)) [
  | inl p ↦ rw (p, admin_batch) v
  | inr (batch, p) ↦ elim (Option-cases (preflight s batch)) [
    | inr (e, q) ↦
        rw (p, q, admin_batch, run_batch)
          (ends-IsSource name_of (take_back false batch s)
            (take_back-IsSource name_of false batch s v))
    | inl q ↦
        rw (p, q, admin_batch, run_batch)
          (finish_batch-IsSource name_of batch (resolve_all true batch s)
            (resolve_all-IsSource name_of true batch s v))
  ]
]
