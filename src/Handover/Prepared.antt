-- ===== src/Handover/Prepared.antt =====
-- server.go: the adoptions that a batch names, and its preflight.
use ghostline.Prelude.{
  ℕ, ◌≡◌, inl, inr, refl, sym, ◌∙◌, ap, subst, false, ◌==◌, none, some, List, [], ◌∷◌, Bytes,
  bytes_eq, arith, Bool-cases, Option-cases,
}
use ghostline.Prelude.Maps.{update}
use ghostline.Prelude.Names.{find, store, find-store}
use ghostline.Migration.{Handoff}
use ghostline.Handover.{Adoption, Source, prepared, preflight, trouble}

-- What is pending under a name is the adoption of the session of that name.
abbrev pub IsSource : (ℕ → Bytes) → Source → Type 0
IsSource name_of s =
    (name : Bytes) (a : Adoption)
    → find name s.pending ≡ some a
    → (a.name ≡ name) × (name_of a.identity ≡ name)

-- Adoptions of different sessions, of none whose name was seen.
abbrev pub IsBatch : (ℕ → Bytes) → List (Bytes × Unit {0}) → List Adoption → Type 0
IsBatch name_of seen [] = Unit {0}
IsBatch name_of seen (a ∷ rest) =
    (find a.name seen ≡ none)
    × (name_of a.identity ≡ a.name)
    × IsBatch name_of (store a.name tt seen) rest

abbrev pub names_of : List Adoption → List Bytes
names_of [] = []
names_of (a ∷ rest) = a.name ∷ names_of rest

pub prepared-IsBatch :
    (name_of : ℕ → Bytes) (names : List Bytes) (seen : List (Bytes × Unit {0})) (s : Source)
    (batch : List Adoption)
    → IsSource name_of s
    → prepared names seen s.pending ≡ some batch
    → IsBatch name_of seen batch × (names_of batch ≡ names)
unfolding prepared
prepared-IsBatch name_of [] seen s [] v e = (tt, refl)
prepared-IsBatch name_of [] seen s (a ∷ batch) v e = absurd (cc)
prepared-IsBatch name_of (name ∷ names) seen s batch v e = elim (Option-cases (find name seen)) [
  | inr (u, f) ↦ absurd (ground (arith, e, f))
  | inl f ↦ elim (Option-cases (find name s.pending)) [
    | inl p ↦ absurd (ground (arith, e, f, p))
    | inr (a, p) ↦ elim (Option-cases (prepared names (store name tt seen) s.pending)) [
      | inl r ↦ absurd (ground (arith, e, f, p, r))
      | inr (rest, r) ↦
          let known = v name a p in
          let later = prepared-IsBatch name_of names (store name tt seen) s rest v r in
          let q : batch ≡ a ∷ rest = ground (arith, e, f, p, r) in
          subst (λ b. IsBatch name_of seen b × (names_of b ≡ name ∷ names)) (sym q)
            (
              (
                subst (λ n. find n seen ≡ none) (sym known.0) f,
                known.1 ∙ sym known.0,
                subst (λ n. IsBatch name_of (store n tt seen) rest) (sym known.0) later.0,
              ),
              ap (λ n. n ∷ names_of rest) known.0 ∙ ap (λ ns. name ∷ ns) later.1,
            )
    ]
  ]
]

abbrev pub Misses : ℕ → List Adoption → Type 0
Misses identity [] = Unit {0}
Misses identity (a ∷ rest) = ((identity == a.identity) ≡ false) × Misses identity rest

pub IsBatch-Misses :
    (name_of : ℕ → Bytes) (identity : ℕ) (seen : List (Bytes × Unit {0})) (batch : List Adoption)
    → IsBatch name_of seen batch
    → find (name_of identity) seen ≡ some tt
    → Misses identity batch
IsBatch-Misses name_of identity seen [] v f = tt
IsBatch-Misses name_of identity seen (a ∷ rest) (unseen, known, later) f = (
  elim (Bool-cases (identity == a.identity)) [
    | inr n ↦ n
    | inl e ↦
        let same : name_of identity ≡ a.name = ap name_of (ground (arith, e)) ∙ known in
        absurd (cc (ap (λ n. find n seen) same))
  ],
  IsBatch-Misses name_of identity (store a.name tt seen) rest later (
      find-store a.name (name_of identity) tt seen
      ∙ elim (Bool-cases (bytes_eq a.name (name_of identity))) [
        | inl e ↦ rw e refl
        | inr e ↦ rw e f
      ]),
)

abbrev pub Ready : Source → List Adoption → Type 0
Ready s [] = Unit {0}
Ready s (a ∷ rest) = (trouble s a ≡ none) × Ready s rest

pub preflight-Ready :
    (s : Source) (batch : List Adoption) → preflight s batch ≡ none → Ready s batch
unfolding preflight
preflight-Ready s [] e = tt
preflight-Ready s (a ∷ rest) e = elim (Option-cases (trouble s a)) [
  | inl t ↦ (t, preflight-Ready s rest (sym (rw (t, preflight) refl) ∙ e))
  | inr (m, t) ↦ absurd (ground (arith, e, t))
]

-- Another session's handoff does not count.
pub Ready-update :
    (s : Source) (identity : ℕ) (h : Handoff) (batch : List Adoption)
    → Misses identity batch
    → Ready s batch
    → Ready (record s { handoffs = update s.handoffs identity h }) batch
Ready-update s identity h [] n r = tt
Ready-update s identity h (a ∷ rest) (n, ns) (r, rs) =
    (rw n r, Ready-update s identity h rest ns rs)
