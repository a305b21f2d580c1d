-- ===== src/Hub/Steps.antt =====
-- hub.go: calls of Start, Delete and Close one after another and in between each other. Start
-- holds the read side of the lifecycle lock for its whole length and Close the write side, so
-- Close comes only where no Start is under way.
use ghostline.Prelude.{
  ℕ, ◌≡◌, refl, sym, ◌∙◌, ap, true, false, ◌&&◌, ◌||◌, List, [], Bytes, none, some, bytes_eq,
  bytes_eq_iff, bytes_eq_refl, is_some, arith, inl, inr, subst, Bool-cases, Option-cases,
}
use ghostline.Prelude.Names.{find, store, find-store, find-discard}
use ghostline.Hub.{Hub, reserve, release, publish_session, remove, close_hub}
use ghostline.Hub.Start.{reserve_cases, publish_reserved}

pub data HubStep : Hub → Hub → Type 0 where
  reserves : {h h' : Hub} (name : Bytes) → reserve name h ≡ (h', none) → HubStep h h'
  releases : {h : Hub} (name : Bytes) → HubStep h (release name h)
  publishes :
      {h : Hub} (name : Bytes) (state : ℕ)
      → find name h.pending ≡ some tt
      → HubStep h (publish_session name state h).0
  removes : {h : Hub} (name : Bytes) → HubStep h (remove name h)
  closes : {h : Hub} → h.pending ≡ [] → HubStep h (close_hub h).0

pub data Reaches : Hub → Hub → Type 0 where
  here : {h : Hub} → Reaches h h
  then_step : {h h' h'' : Hub} → Reaches h h' → HubStep h' h'' → Reaches h h''

-- No name is both pending and in use, and nothing is pending in a closed hub.
abbrev IsHubAt : Bytes → Hub → Type 0
IsHubAt name h =
    (is_some (find name h.pending) && (is_some (find name h.sessions) || h.is_closed)) ≡ false

pub IsHub : Hub → Type 0
IsHub h = (name : Bytes) → IsHubAt name h

-- A hub as New makes it.
abbrev pub IsFresh : Hub → Type 0
IsFresh h = (h.sessions ≡ []) × (h.pending ≡ []) × (h.is_closed ≡ false)

release-IsHubAt : (name asked : Bytes) (h : Hub) → IsHubAt asked h → IsHubAt asked (release name h)
unfolding release
release-IsHubAt name asked h i = ground (arith, i, find-discard name asked h.pending)

remove-IsHubAt : (name asked : Bytes) (h : Hub) → IsHubAt asked h → IsHubAt asked (remove name h)
unfolding remove
remove-IsHubAt name asked h i = ground (arith, i, find-discard name asked h.sessions)

-- A name that is equal to another is looked up alike.
find_same :
    {V : Type 0} (name asked : Bytes) (entries : List (Bytes × V))
    → bytes_eq name asked ≡ true
    → find asked entries ≡ find name entries
find_same name asked entries e = ap (λ n. find n entries) (sym ((bytes_eq_iff name asked).0 e))

reserve-IsHubAt :
    (name asked : Bytes) (h h' : Hub)
    → reserve name h ≡ (h', none)
    → IsHubAt asked h
    → IsHubAt asked h'
reserve-IsHubAt name asked h h' e i = elim (reserve_cases name h) [
  | inl (f, g) ↦ cc
  | inr (g, c, p, s) ↦
      subst (IsHubAt asked) {x = record h { pending = store name tt h.pending }}
        (ap (λ r. r.0) (sym g ∙ e))
        (elim (Bool-cases (bytes_eq name asked)) [
          | inl same ↦
              rw
                (
                  find-store name asked tt h.pending,
                  same,
                  find_same name asked h.sessions same ∙ s,
                  c,
                )
                refl
          | inr other ↦ rw (find-store name asked tt h.pending, other) i
        ])
]

-- The name that a Start holds is free, and the hub is open.
held :
    (name : Bytes) (h : Hub)
    → find name h.pending ≡ some tt
    → IsHubAt name h
    → (h.is_closed ≡ false) × (find name h.sessions ≡ none)
held name h p i = elim (Option-cases (find name h.sessions)) [
  | inl s ↦ (ground arith, s)
  | inr (state, s) ↦ ground arith
]

publish-IsHubAt :
    (name asked : Bytes) (state : ℕ) (h : Hub)
    → find name h.pending ≡ some tt
    → IsHubAt name h
    → IsHubAt asked h
    → IsHubAt asked (publish_session name state h).0
publish-IsHubAt name asked state h p i j =
    let (c, s) = held name h p i in
    rw (publish_reserved name state h c s) (elim (Bool-cases (bytes_eq name asked)) [
      | inl same ↦ rw (find-discard name asked h.pending, same) refl
      | inr other ↦
          rw (find-discard name asked h.pending, find-store name asked state h.sessions, other) j
    ])

close-IsHubAt : (asked : Bytes) (h : Hub) → h.pending ≡ [] → IsHubAt asked (close_hub h).0
unfolding close_hub find
close-IsHubAt asked h p = elim (Bool-cases h.is_closed) [
  | inl e ↦ rw (e, close_hub, p) refl
  | inr n ↦ rw (n, close_hub, p) refl
]

step-IsHub : {h h' : Hub} → HubStep h h' → IsHub h → IsHub h'
unfolding IsHub
step-IsHub {h} {h'} (reserves name e) i = λ asked. reserve-IsHubAt name asked h h' e (i asked)
step-IsHub {h} (releases name) i = λ asked. release-IsHubAt name asked h (i asked)
step-IsHub {h} (publishes name state p) i =
    λ asked. publish-IsHubAt name asked state h p (i name) (i asked)
step-IsHub {h} (removes name) i = λ asked. remove-IsHubAt name asked h (i asked)
step-IsHub {h} (closes p) i = λ asked. close-IsHubAt asked h p

fresh-IsHub : (h : Hub) → IsFresh h → IsHub h
unfolding IsHub find
fresh-IsHub h (s, p, c) = λ asked. rw p refl

pub Reaches-IsHub : {h h' : Hub} → IsFresh h → Reaches h h' → IsHub h'
Reaches-IsHub {h} f here = fresh-IsHub h f
Reaches-IsHub f (then_step r step) = step-IsHub step (Reaches-IsHub f r)

-- Whatever other calls came in between, a Start that has reserved its name and started its
-- process publishes the session without an error, and the name then finds it.
pub publish_succeeds :
    (name : Bytes) (state : ℕ) (fresh h : Hub)
    → IsFresh fresh
    → Reaches fresh h
    → find name h.pending ≡ some tt
    → ((publish_session name state h).1 ≡ none)
      × (find name (publish_session name state h).0.sessions ≡ some state)
      × (find name (publish_session name state h).0.pending ≡ none)
unfolding IsHub
publish_succeeds name state fresh h f r p =
    let (c, s) = held name h p (Reaches-IsHub f r name) in
    rw (publish_reserved name state h c s) (
      refl,
      find-store name name state h.sessions ∙ rw (bytes_eq_refl name) refl,
      find-discard name name h.pending ∙ rw (bytes_eq_refl name) refl,
    )
