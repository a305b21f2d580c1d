-- ===== src/Hub/Start.antt =====
-- hub.go: what a call of Start does to the hub.
use ghostline.Prelude.{
  ℕ, ◌≡◌, ◌⊎◌, refl, sym, ◌∙◌, ap, Bool, false, List, Bytes, Option, none, some, if◌then◌else◌,
  bytes_eq, bytes_eq_iff, inl, inr, Bool-cases, Option-cases,
}
use ghostline.Prelude.Names.{find, store, discard, find-store, find-discard}
use ghostline.Errors.{Result-cases, Error, closed, session_exists, Result, ok, err}
use ghostline.Hub.{
  Hub, SessionOptions, StartAnswer, check_options, reserve, release, publish_session,
  start_reserved, start,
}

-- What a lookup finds in both of the hub's maps.
abbrev pub view : Bytes → Hub → (Option ℕ) × (Option (Unit {0}))
view asked h = (find asked h.sessions, find asked h.pending)

abbrev pub with_session : Bytes → Bytes → ℕ → Hub → (Option ℕ) × (Option (Unit {0}))
with_session asked name state h =
    ((if bytes_eq name asked then some state else find asked h.sessions), find asked h.pending)

pub reserve_cases :
    (name : Bytes) (h : Hub)
    → ((e : Error) × (reserve name h ≡ (h, some e)))
      ⊎ ((reserve name h ≡ (record h { pending = store name tt h.pending }, none))
          × (h.is_closed ≡ false)
          × (find name h.pending ≡ none)
          × (find name h.sessions ≡ none))
unfolding reserve
reserve_cases name h = elim (Bool-cases h.is_closed) [
  | inl e ↦ inl (closed, rw (e, reserve) refl)
  | inr n ↦ elim (Option-cases (find name h.pending)) [
    | inl p ↦ elim (Option-cases (find name h.sessions)) [
      | inl s ↦ inr (rw (n, p, s, reserve) refl, n, p, s)
      | inr (state, s) ↦ inl (session_exists, rw (n, p, s, reserve) refl)
    ]
    | inr (u, p) ↦ inl (session_exists, rw (n, p, reserve) refl)
  ]
]

pub publish_reserved :
    (name : Bytes) (state : ℕ) (h : Hub)
    → h.is_closed ≡ false
    → find name h.sessions ≡ none
    → publish_session name state h ≡ (
      record h { sessions = store name state h.sessions; pending = discard name h.pending },
      none,
    )
unfolding publish_session release
publish_reserved name state h c s = rw (c, s, publish_session) refl

-- The pending names after a reservation and its release.
pending_back :
    (name asked : Bytes) (pending : List (Bytes × Unit {0}))
    → find name pending ≡ none
    → find asked (discard name (store name tt pending)) ≡ find asked pending
pending_back name asked pending p = elim (Bool-cases (bytes_eq name asked)) [
  | inl e ↦
      find-discard name asked (store name tt pending)
      ∙ rw e (sym p ∙ ap (λ n. find n pending) ((bytes_eq_iff name asked).0 e))
  | inr n ↦
      find-discard name asked (store name tt pending)
      ∙ rw n (find-store name asked tt pending ∙ rw n refl)
]

-- A result of Start on a hub whose lookups were those of `h`, with the name not in use.
abbrev StartEnds : Result ℕ → Bytes → Bytes → Hub → Hub × Result ℕ → Type 0
StartEnds started name asked h r =
    ((e : Error) × (r.1 ≡ err e) × (view asked r.0 ≡ view asked h))
    ⊎ ((state : ℕ) × (r.1 ≡ ok state)
        × (started ≡ ok state)
        × (view asked r.0 ≡ with_session asked name state h))

view_back :
    (name asked : Bytes) (h : Hub)
    → find name h.pending ≡ none
    → view asked (release name (record h { pending = store name tt h.pending })) ≡ view asked h
unfolding release
view_back name asked h p =
    ap (λ q. (find asked h.sessions, q)) (pending_back name asked h.pending p)

view_started :
    (name asked : Bytes) (state : ℕ) (h : Hub)
    → find name h.pending ≡ none
    → view asked (record h {
      sessions = store name state h.sessions;
      pending = discard name (store name tt h.pending);
    })
      ≡ with_session asked name state h
view_started name asked state h p =
    cc (find-store name asked state h.sessions, pending_back name asked h.pending p)

start_reserved_outcome :
    (answer : StartAnswer) (name asked : Bytes) (h : Hub)
    → h.is_closed ≡ false
    → find name h.pending ≡ none
    → find name h.sessions ≡ none
    → StartEnds answer.started name asked h
        (start_reserved answer name (record h { pending = store name tt h.pending }))
unfolding start_reserved
start_reserved_outcome answer name asked h c p s =
    let taken = record h { pending = store name tt h.pending } in
    elim (Option-cases answer.made_directory) [
      | inr (e, m) ↦ rw (m, start_reserved) (inl (e, refl, view_back name asked h p))
      | inl m ↦ elim (Result-cases answer.started) [
        | inl (e, t) ↦ rw (m, t, start_reserved) (inl (e, refl, view_back name asked h p))
        | inr (state, t) ↦
            rw (m, t, publish_reserved name state taken c s, start_reserved)
              (inr (state, refl, refl, view_started name asked state h p))
      ]
    ]

-- Start either fails, and then every lookup in the hub's sessions and pending names gives what
-- it gave before, or returns the session that was started under a name that was not in use, and
-- then that name finds it, every other lookup is unchanged, and the hub was open.
pub start_outcome :
    (context_done : Bool) (answer : StartAnswer) (options : SessionOptions) (asked : Bytes)
    (h : Hub)
    → let r = start context_done answer options h in
      ((e : Error) × (r.1 ≡ err e) × (view asked r.0 ≡ view asked h))
      ⊎ ((state : ℕ) × (r.1 ≡ ok state)
          × (answer.started ≡ ok state)
          × (find options.name h.sessions ≡ none)
          × (h.is_closed ≡ false)
          × (view asked r.0 ≡ with_session asked options.name state h))
unfolding start
start_outcome context_done answer options asked h =
    elim (Result-cases (check_options context_done options h)) [
      | inl (e, f) ↦ rw (f, start) (inl (e, refl, refl))
      | inr (size, f) ↦ elim (reserve_cases options.name h) [
        | inl (e, g) ↦ rw (f, g, start) (inl (e, refl, refl))
        | inr (g, c, p, s) ↦
            rw (f, g, start)
              (elim (start_reserved_outcome answer options.name asked h c p s) [
                | inl failed ↦ inl failed
                | inr (state, r, t, v) ↦ inr (state, r, t, s, c, v)
              ])
      ]
    ]
