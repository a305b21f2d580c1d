-- ===== src/Handover/Aborts.antt =====
-- server.go: an abort leaves every session where it was.
use ghostline.Prelude.{
  ℕ, inl, inr, refl, ◌∙◌, false, Option, none, some, List, [], ◌∷◌, Bytes, Option-cases,
}
use ghostline.Migration.{MigrationError}
use ghostline.Handover.{
  Adoption, Source, resolve_adoption, resolve_all, drop_all, admin_batch, run_batch, finish_batch,
  prepared, forget, disconnect, adoptions,
}
use ghostline.Handover.Prepared.{IsSource}
use ghostline.Handover.Commit.{resolve_adoption-abort, KeepsSessions}
use ghostline.Handover.Keeps.{Keeps, Keeps-trans, IsSource-discard, resolve_adoption-Keeps}

-- Adoptions that are given back.
resolve_all-Keeps :
    (name_of : ℕ → Bytes) (batch : List Adoption) (s : Source)
    → IsSource name_of s
    → Keeps name_of s (resolve_all false batch s).0
unfolding resolve_all
resolve_all-Keeps name_of [] s v = (refl, λ k. refl, v)
resolve_all-Keeps name_of (a ∷ rest) s v =
    let one = resolve_adoption-Keeps name_of a s v in
    Keeps-trans name_of s (resolve_adoption a false s).0
      (resolve_all false rest (resolve_adoption a false s).0).0 one
      (resolve_all-Keeps name_of rest (resolve_adoption a false s).0 one.2)

drop_all-Keeps :
    (name_of : ℕ → Bytes) (batch : List Adoption) (s : Source)
    → IsSource name_of s
    → Keeps name_of s (drop_all false batch s)
unfolding drop_all
drop_all-Keeps name_of [] s v = (refl, λ k. refl, v)
drop_all-Keeps name_of (a ∷ rest) s v =
    drop_all-Keeps name_of rest (forget a.name s) (IsSource-discard name_of s a.name v)

finish_batch-Keeps :
    (name_of : ℕ → Bytes) (batch : List Adoption) (r : Source × Option MigrationError)
    → IsSource name_of r.0
    → Keeps name_of r.0 (finish_batch false batch r).0
finish_batch-Keeps name_of batch (s, none) v = drop_all-Keeps name_of batch s v
finish_batch-Keeps name_of batch (s, some e) v = drop_all-Keeps name_of batch s v

-- An abort leaves every session where it was.
pub admin_batch-Keeps :
    (name_of : ℕ → Bytes) (names : List Bytes) (s : Source)
    → IsSource name_of s
    → Keeps name_of s (admin_batch false names s).0
unfolding admin_batch run_batch
admin_batch-Keeps name_of names s v = elim (Option-cases (prepared names [] s.pending)) [
  | inl p ↦ rw (p, admin_batch) (refl, λ k. refl, v)
  | inr (batch, p) ↦
      let resolved = resolve_all-Keeps name_of batch s v in
      rw (p, admin_batch)
        (Keeps-trans name_of s (resolve_all false batch s).0
          (finish_batch false batch (resolve_all false batch s)).0 resolved
          (finish_batch-Keeps name_of batch (resolve_all false batch s) resolved.2))
]

-- The end of the connection does too.
resolve_all-KeepsSessions :
    (batch : List Adoption) (s : Source) → KeepsSessions s (resolve_all false batch s).0
unfolding resolve_all
resolve_all-KeepsSessions [] s = (refl, λ k. refl)
resolve_all-KeepsSessions (a ∷ rest) s =
    let s₁ = (resolve_adoption a false s).0 in
    let (e, m) = resolve_all-KeepsSessions rest s₁ in
    (e ∙ (resolve_adoption-abort 0 a s).1, λ k. m k ∙ (resolve_adoption-abort k a s).0)

pub disconnect-KeepsSessions : (s : Source) → KeepsSessions s (disconnect s)
unfolding disconnect
disconnect-KeepsSessions s = resolve_all-KeepsSessions (adoptions s.pending) s
