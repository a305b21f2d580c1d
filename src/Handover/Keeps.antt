-- ===== src/Handover/Keeps.antt =====
-- server.go: what the requests that come before a commit leave alone.
use mathlib.Core.Option.{some-injective}
use ghostline.Prelude.{
  ℕ, ◌≡◌, inl, inr, refl, sym, ◌∙◌, ap, subst, Bool, true, false, not, ◌||◌, ◌==◌, Option, none,
  some, Bytes, bytes_eq, bytes_eq_iff, is_some, if◌then◌else◌, arith, Bool-cases, Option-cases,
}
use ghostline.Prelude.Maps.{update}
use ghostline.Prelude.Names.{find, store, find-store, find-discard}
use ghostline.Migration.{
  Handoff, Begun, begun, refused, begin_migration, new_ticket, mark_stable, with_ticket,
  migration_busy,
}
use ghostline.Handover.{
  Adoption, Source, AdminReply, refuses, hands_over, lists, committed, exits, StopAnswer,
  resolve_adoption, answer_adopt, after_begin, admin_adopt, forget, give_up, timed_out,
}
use ghostline.Handover.Prepared.{IsSource}
use ghostline.Handover.Commit.{resolve_adoption-abort}

-- Every session is where it was, and what is pending is still the adoption of its session.
abbrev pub Keeps : (ℕ → Bytes) → Source → Source → Type 0
Keeps name_of s s' =
    (s'.sessions ≡ s.sessions)
    × ((k : ℕ) → (s'.handoffs k).migrated ≡ (s.handoffs k).migrated)
    × IsSource name_of s'

pub Keeps-trans :
    (name_of : ℕ → Bytes) (s₁ s₂ s₃ : Source)
    → Keeps name_of s₁ s₂
    → Keeps name_of s₂ s₃
    → Keeps name_of s₁ s₃
Keeps-trans name_of s₁ s₂ s₃ (e, m, v) (e', m', v') = (e' ∙ e, λ k. m' k ∙ m k, v')

update-migrated :
    (handoffs : ℕ → Handoff) (identity k : ℕ) (h : Handoff)
    → h.migrated ≡ (handoffs identity).migrated
    → (update handoffs identity h k).migrated ≡ (handoffs k).migrated
update-migrated handoffs identity k h e = elim (Bool-cases (identity == k)) [
  | inl q ↦ rw q (e ∙ ap (λ n. (handoffs n).migrated) (ground (arith, q)))
  | inr q ↦ rw q refl
]

IsSource-store :
    (name_of : ℕ → Bytes) (s : Source) (name : Bytes) (identity ticket : ℕ)
    → IsSource name_of s
    → name_of identity ≡ name
    → IsSource name_of (record s {
      pending = store name (record { name = name; identity = identity; ticket = ticket }) s.pending;
    })
IsSource-store name_of s name identity ticket v known asked a f =
    let a₀ : Adoption = record { name = name; identity = identity; ticket = ticket } in
    let g = sym (find-store name asked a₀ s.pending) ∙ f in
    elim (Bool-cases (bytes_eq name asked)) [
      | inl q ↦
          let found : a₀ ≡ a = some-injective a₀ a (rw q at g) in
          let same : name ≡ asked = (bytes_eq_iff name asked).0 q in
          subst (λ x. (x.name ≡ asked) × (name_of x.identity ≡ asked)) found (same, known ∙ same)
      | inr q ↦ v asked a (rw q at g)
    ]

pub IsSource-discard :
    (name_of : ℕ → Bytes) (s : Source) (name : Bytes)
    → IsSource name_of s
    → IsSource name_of (forget name s)
IsSource-discard name_of s name v asked a f =
    let g = sym (find-discard name asked s.pending) ∙ f in
    elim (Bool-cases (bytes_eq name asked)) [
      | inl q ↦ absurd (ground (arith, q, g))
      | inr q ↦ v asked a (rw q at g)
    ]

pub resolve_adoption-Keeps :
    (name_of : ℕ → Bytes) (a : Adoption) (s : Source)
    → IsSource name_of s
    → Keeps name_of s (resolve_adoption a false s).0
unfolding resolve_adoption
resolve_adoption-Keeps name_of a s v = (refl, λ k. (resolve_adoption-abort k a s).0, v)

give_up-Keeps :
    (name_of : ℕ → Bytes) (a : Adoption) (s : Source)
    → IsSource name_of s
    → Keeps name_of s (give_up a s)
give_up-Keeps name_of a s v =
    let (e, m, v') = resolve_adoption-Keeps name_of a s v in
    (e, m, IsSource-discard name_of (resolve_adoption a false s).0 a.name v')

-- A session that is asked to hand over is not handed over by that.
abbrev IsBegun : Handoff → Option (Handoff × Begun) → Type 0
IsBegun h none = Unit {0}
IsBegun h (some (h', b)) = h'.migrated ≡ h.migrated

if-IsBegun :
    (h : Handoff) (b : Bool) (r r' : Option (Handoff × Begun))
    → IsBegun h r
    → IsBegun h r'
    → IsBegun h (if b then r else r')
if-IsBegun h true r r' i i' = i
if-IsBegun h false r r' i i' = i'

begin_migration-IsBegun : (h : Handoff) → IsBegun h (begin_migration h)
unfolding begin_migration new_ticket
begin_migration-IsBegun h =
    if-IsBegun h (is_some h.migration) (some (h, refused migration_busy)) _ refl
      (if-IsBegun h h.gate none (some (new_ticket (not h.session_done) h)) tt refl)

-- A reply that hands a session over is for the session of that name.
abbrev pub IsFor : Bytes → Source → AdminReply → Type 0
IsFor name s (refuses e) = Unit {0}
IsFor name s (lists ks) = Unit {0}
IsFor name s (hands_over k alive) = find name s.sessions ≡ some k
IsFor name s (committed n) = Unit {0}
IsFor name s exits = Unit {0}

abbrev pub IsAdopted : (ℕ → Bytes) → Bytes → Source → Source × AdminReply → Type 0
IsAdopted name_of name s r = Keeps name_of s r.0 × IsFor name s r.1

if-IsAdopted :
    (name_of : ℕ → Bytes) (name : Bytes) (s : Source) (b : Bool) (r r' : Source × AdminReply)
    → IsAdopted name_of name s r
    → IsAdopted name_of name s r'
    → IsAdopted name_of name s (if b then r else r')
if-IsAdopted name_of name s true r r' i i' = i
if-IsAdopted name_of name s false r r' i i' = i'

-- Behind beginMigration, where the session is the one of its name.
answer_adopt-IsAdopted :
    (name_of : ℕ → Bytes) (answer : StopAnswer) (name : Bytes) (identity ticket : ℕ) (s s₁ : Source)
    → find name s.sessions ≡ some identity
    → name_of identity ≡ name
    → Keeps name_of s s₁
    → IsAdopted name_of name s
        (answer_adopt answer (record { name = name; identity = identity; ticket = ticket }) s₁)
unfolding answer_adopt
answer_adopt-IsAdopted name_of answer name identity ticket s s₁ found known k =
    let a : Adoption = record { name = name; identity = identity; ticket = ticket } in
    let t = (s₁.handoffs identity).tickets ticket in
    let h =
      with_ticket ticket (if t.alive then mark_stable answer.drained t else t)
        (s₁.handoffs identity) in
    let waiting = record s₁ { pending = store name a s₁.pending } in
    let stable = record s₁ {
      pending = store name a s₁.pending;
      handoffs = update s₁.handoffs identity h;
    } in
    let v = IsSource-store name_of s₁ name identity ticket k.2 known in
    let moved : Keeps name_of s stable =
      (k.0, λ j. update-migrated s₁.handoffs identity j h refl ∙ k.1 j, v) in
    let back =
      Keeps-trans name_of s stable (give_up a stable) moved (give_up-Keeps name_of a stable v) in
    if-IsAdopted name_of name s (not (answer.in_time || t.stable))
      (give_up a waiting, refuses timed_out) _
      (
        Keeps-trans name_of s waiting (give_up a waiting) (k.0, k.1, v)
            (give_up-Keeps name_of a waiting v),
        tt,
      )
      (elim (Option-cases (h.tickets ticket).ticket_error) [
        | inr (e, q) ↦ rw q (back, tt)
        | inl q ↦ elim (Option-cases answer.described) [
          | inr (e, d) ↦ rw (q, d) (back, tt)
          | inl d ↦ rw (q, d) (moved, found)
        ]
      ])

abbrev pub IsAnswered : (ℕ → Bytes) → Bytes → Source → Option (Source × AdminReply) → Type 0
IsAnswered name_of name s none = Unit {0}
IsAnswered name_of name s (some r) = IsAdopted name_of name s r

after_begin-IsAnswered :
    (name_of : ℕ → Bytes) (answer : StopAnswer) (name : Bytes) (identity : ℕ) (s : Source)
    (r : Option (Handoff × Begun))
    → IsSource name_of s
    → find name s.sessions ≡ some identity
    → name_of identity ≡ name
    → IsBegun (s.handoffs identity) r
    → IsAnswered name_of name s (after_begin answer name identity s r)
after_begin-IsAnswered name_of answer name identity s none v found known b = tt
after_begin-IsAnswered name_of answer name identity s (some (h, refused e)) v found known b =
    ((refl, λ k. update-migrated s.handoffs identity k h b, v), tt)
after_begin-IsAnswered name_of answer name identity s (some (h, begun n)) v found known b =
    answer_adopt-IsAdopted name_of answer name identity n s
      (record s { handoffs = update s.handoffs identity h }) found known
      (refl, λ k. update-migrated s.handoffs identity k h b, v)

pub admin_adopt-IsAnswered :
    (name_of : ℕ → Bytes) (answer : StopAnswer) (name : Bytes) (s : Source)
    → IsSource name_of s
    → ((k : ℕ) → find name s.sessions ≡ some k → name_of k ≡ name)
    → IsAnswered name_of name s (admin_adopt answer name s)
unfolding admin_adopt
admin_adopt-IsAnswered name_of answer name s v known =
    let stays : Keeps name_of s s = (refl, λ k. refl, v) in
    elim (Bool-cases (not s.batch_frozen)) [
      | inl f ↦ rw (f, admin_adopt) (stays, tt)
      | inr f ↦ elim (Bool-cases (is_some (find name s.pending))) [
        | inl q ↦ rw (f, q, admin_adopt) (stays, tt)
        | inr q ↦ elim (Option-cases (find name s.sessions)) [
          | inl m ↦ rw (f, q, m, admin_adopt) (stays, tt)
          | inr (identity, m) ↦ subst (IsAnswered name_of name s) (rw (f, q, m, admin_adopt) refl) (
              after_begin-IsAnswered name_of answer name identity s
                (begin_migration (s.handoffs identity)) v m (known identity m)
                (begin_migration-IsBegun (s.handoffs identity)))
        ]
      ]
    ]
