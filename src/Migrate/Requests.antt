-- ===== src/Migrate/Requests.antt =====
-- migrate.go and server.go: the requests before a commit, as the client of handleAdmin sees them.
use ghostline.Prelude.{
  ℕ, ◌≡◌, inl, inr, refl, sym, ◌∙◌, ap, Bool, true, false, Option, none, some, List, [], Bytes,
  if◌then◌else◌, ◌||◌, Option-cases,
}
use ghostline.Prelude.Names.{find}
use ghostline.Errors.{Result, ok, err}
use ghostline.Hub.Order.{session_states}
use ghostline.Handover.{
  Adoption, Source, AdminReply, refuses, lists, hands_over, committed, exits, identities,
  admin_list, admin_adopt, described, batch_active,
}
use ghostline.Handover.Prepared.{IsSource, names_of}
use ghostline.Handover.Commit.{HandsOver}
use ghostline.Handover.Keeps.{Keeps, Keeps-trans, IsAnswered, admin_adopt-IsAnswered}
use ghostline.Migrate.{SessionMeta, AdminListResult}
use ghostline.Migrate.Attempts.{names_of_metas}
use ghostline.Migrate.Peers.{
  Surroundings, as_list, as_meta, metas-names, listed_names, IsNamed, IsNamed-find,
}

-- What happens between two requests leaves every session where it is.
abbrev pub IsApart : {Shell : Type 0} → Surroundings Shell → Type 0
IsApart x =
    (s : Source)
    → ((x.others s).sessions ≡ s.sessions)
      × ((x.others s).pending ≡ s.pending)
      × ((k : ℕ) → ((x.others s).handoffs k).migrated ≡ (s.handoffs k).migrated)

module _ {Shell : Type 0} (x : Surroundings Shell) (apart : IsApart x) (s₀ : Source)
    (named : IsNamed x s₀.sessions) where
  abbrev pub all_names : List Bytes
  all_names = listed_names x (session_states x.created x.name_of (identities s₀.sessions))

  abbrev pub Before : Source → Type 0
  Before s = Keeps x.name_of s₀ s

  abbrev pub Done : List Bytes → Source → Type 0
  Done ns s = (batch : List Adoption) × (names_of batch ≡ ns) × HandsOver batch s₀ s

  others-Keeps : (s : Source) → IsSource x.name_of s → Keeps x.name_of s (x.others s)
  others-Keeps s v =
      let (e, p, m) = apart s in (e, m, λ name a f. v name a (sym (ap (find name) p) ∙ f))

  pub others-Before : (s : Source) → Before s → Before (x.others s)
  others-Before s b = Keeps-trans x.name_of s₀ s (x.others s) b (others-Keeps s b.2)

  -- The list request.
  abbrev pub IsListed : Source → Source × AdminReply → Type 0
  IsListed s (s', refuses e) = Keeps x.name_of s s'
  IsListed s (s', lists ks) =
      Keeps x.name_of s s' × (ks ≡ session_states x.created x.name_of (identities s.sessions))
  IsListed s (s', hands_over k alive) = Keeps x.name_of s s'
  IsListed s (s', committed n) = Keeps x.name_of s s'
  IsListed s (s', exits) = Keeps x.name_of s s'

  if-IsListed :
      (s : Source) (b : Bool) (r r' : Source × AdminReply)
      → IsListed s r
      → IsListed s r'
      → IsListed s (if b then r else r')
  if-IsListed s true r r' i i' = i
  if-IsListed s false r r' i i' = i'

  pub admin_list-IsListed :
      (s : Source) → IsSource x.name_of s → IsListed s (admin_list x.created x.name_of x.describe s)
  unfolding admin_list
  admin_list-IsListed s v =
      let states = session_states x.created x.name_of (identities s.sessions) in
      if-IsListed s (s.batch_frozen || s.hub_closed) (s, refuses batch_active) _
        (refl, λ k. refl, v)
        (elim (Option-cases (described x.describe states)) [
          | inr (e, d) ↦ rw d (refl, λ k. refl, v)
          | inl d ↦ rw d ((refl, λ k. refl, v), refl)
        ])

  pub as_list-Keeps :
      (s : Source) (r : Source × AdminReply) → IsListed s r → Keeps x.name_of s (as_list x r).0
  as_list-Keeps s (s', refuses e) i = i
  as_list-Keeps s (s', lists ks) i = i.0
  as_list-Keeps s (s', hands_over k alive) i = i
  as_list-Keeps s (s', committed n) i = i
  as_list-Keeps s (s', exits) i = i

  abbrev sessions_of : Result AdminListResult → List SessionMeta
  sessions_of (err e) = []
  sessions_of (ok l) = l.sessions

  pub as_list-names :
      (s : Source) (r : Source × AdminReply) (l : AdminListResult)
      → IsListed s r
      → (as_list x r).1 ≡ ok l
      → names_of_metas l.sessions
        ≡ listed_names x (session_states x.created x.name_of (identities s.sessions))
  as_list-names s (s', refuses e) l i q = absurd (cc)
  as_list-names s (s', lists ks) l (i, same) q =
      ap (λ r. names_of_metas (sessions_of r)) (sym q)
      ∙ metas-names x s' ks
      ∙ ap (listed_names x) same
  as_list-names s (s', hands_over k alive) l i q = absurd (cc)
  as_list-names s (s', committed n) l i q = absurd (cc)
  as_list-names s (s', exits) l i q = absurd (cc)

  -- The adopt request.
  abbrev pub IsMeta : Bytes → Source → Source × Result SessionMeta → Type 0
  IsMeta name s r = Keeps x.name_of s r.0 × ((m : SessionMeta) → r.1 ≡ ok m → m.name ≡ name)

  abbrev name_in : Result SessionMeta → Bytes
  name_in (err e) = []
  name_in (ok m) = m.name

  as_meta-IsMeta :
      (name : Bytes) (s : Source) (r : Option (Source × AdminReply))
      → IsSource x.name_of s
      → ((k : ℕ) → find name s.sessions ≡ some k → x.name_of k ≡ name)
      → IsAnswered x.name_of name s r
      → IsMeta name s (as_meta x s r)
  as_meta-IsMeta name s none v known i = ((refl, λ k. refl, v), λ m q. absurd (cc))
  as_meta-IsMeta name s (some (s', hands_over k alive)) v known (i, found) =
      (i, λ m q. sym (ap name_in q) ∙ known k found)
  as_meta-IsMeta name s (some (s', refuses e)) v known (i, f) = (i, λ m q. absurd (cc))
  as_meta-IsMeta name s (some (s', lists ks)) v known (i, f) = (i, λ m q. absurd (cc))
  as_meta-IsMeta name s (some (s', committed n)) v known (i, f) = (i, λ m q. absurd (cc))
  as_meta-IsMeta name s (some (s', exits)) v known (i, f) = (i, λ m q. absurd (cc))

  pub adopt-IsMeta :
      (name : Bytes) (s : Source)
      → Before s
      → IsMeta name
          (x.others s)
          (as_meta x (x.others s) (admin_adopt (x.stops name) name (x.others s)))
  adopt-IsMeta name s b =
      let (e, m, v) = others-Before s b in
      let known = λ (k : ℕ) (f : find name (x.others s).sessions ≡ some k).
        IsNamed-find x name k s₀.sessions named (sym (ap (find name) e) ∙ f) in
      as_meta-IsMeta name (x.others s) (admin_adopt (x.stops name) name (x.others s)) v known
        (admin_adopt-IsAnswered x.name_of (x.stops name) name (x.others s) v known)
