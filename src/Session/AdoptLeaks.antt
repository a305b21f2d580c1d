-- ===== src/Session/AdoptLeaks.antt =====
-- process.go: what taking over a session leaves open.
use ghostline.Prelude.{
  ℕ, ◌+◌, ◌≤◌, ◌≡◌, ◌⊎◌, inl, inr, refl, sym, ◌∙◌, ap, subst, Bool, true, false, Bytes,
  if◌then◌else◌, arith, Bool-cases, Option-cases,
}
use ghostline.Errors.{Error, Result, Result-cases, ok, err}
use ghostline.Output.Log.{Log}
use ghostline.Output.Open.{adopt_output_log}
use ghostline.Session.{Emulator, Session}
use ghostline.Session.Start.{
  Held, holds_terminal, holds_log, discard_log, closes_log, holds_pipe, closes_terminal,
}
use ghostline.Session.Adopt.{
  Adopted, AdoptAnswers, adopt_with_terminal, adopt_with_output, adopt_state, adopt_lossy_with_log,
  adopt_lossy_state, adopted_session, replayed, or_close_terminal, or_close_log, or_discard_log,
}
use ghostline.Session.Leaks.{held_eq, create_held}

-- What an adopted session holds beside `u`: a stopped one has no open log and no pipe.
abbrev pub with_adopted : Bool → ℕ → Held → Held
with_adopted running made u = record {
  terminals = u.terminals + 1;
  logs = u.logs + (if running then 1 else 0);
  directories = u.directories + made;
  wake_ends = u.wake_ends + (if running then 2 else 0);
  masters = u.masters;
}

-- A call either fails and leaves the first, or returns a session and leaves the second.
abbrev pub IsEither : {V : Type 0} → Held → Held → Held × Result (Session V) → Type 0
IsEither {V} failed started r =
    ((e : Error) × (r ≡ (failed, err e))) ⊎ ((s : Session V) × (r ≡ (started, ok s)))

module _ {V : Type 0} (identity : ℕ) (a : AdoptAnswers V) (d : Adopted) where
  adopt_with_terminal_cases :
      (terminal : V) (l : Log) (w : Held)
      → let r = adopt_with_terminal identity a d terminal l w in
        let s = adopted_session identity a d terminal l in
        ((d.has_master ≡ false) × (r ≡ (closes_log w, ok s)))
        ⊎ ((d.has_master ≡ true) × (((e : Error) × (r ≡ (w, err e))) ⊎ (r ≡ (holds_pipe w, ok s))))
  unfolding adopt_with_terminal
  adopt_with_terminal_cases terminal l w = elim (Bool-cases d.has_master) [
    | inr h ↦ inl (h, ground (arith, h))
    | inl h ↦ elim (Option-cases a.pipe) [
      | inl p ↦ inr (h, inr (ground (arith, h, p)))
      | inr (e, p) ↦ inr (h, inl (e, ground (arith, h, p)))
    ]
  ]

  -- From a terminal and a log that are held already.
  with_terminal-held :
      (made : ℕ) (terminal : V) (l : Log) (u w : Held)
      → w ≡ record u {
        terminals = u.terminals + 1;
        logs = u.logs + 1;
        directories = u.directories + made;
      }
      → let r = adopt_with_terminal identity a d terminal l w in
        ((e : Error) × (r ≡ (w, err e)))
        ⊎ ((s : Session V) × (r ≡ (with_adopted d.has_master made u, ok s)))
  with_terminal-held made terminal l u w q =
      let s = adopted_session identity a d terminal l in
      elim (adopt_with_terminal_cases terminal l w) [
        | inl (h, e) ↦ inr (
          s,
          e
              ∙ ap (λ v. (v, ok s))
                  (held_eq (closes_log w) (with_adopted d.has_master made u) (ground (arith, q, h))
                    (ground (arith, q, h)) (ground (arith, q, h)) (ground (arith, q, h))
                    (ground (arith, q, h))),
        )
        | inr (h, inl failed) ↦ inl failed
        | inr (h, inr e) ↦ inr (
          s,
          e
              ∙ ap (λ v. (v, ok s))
                  (held_eq (holds_pipe w) (with_adopted d.has_master made u) (ground (arith, q, h))
                    (ground (arith, q, h)) (ground (arith, q, h)) (ground (arith, q, h))
                    (ground (arith, q, h))),
        )
      ]

  terminal_closed :
      (v w x : Held) (r : Held × Result (Session V))
      → w ≡ holds_terminal v
      → IsEither w x r
      → IsEither v x (or_close_terminal r)
  terminal_closed v w x r q (inl (e, z)) = inl (
    e,
    rw (z, q)
        (ap (λ u. (u, err e))
          (held_eq (closes_terminal (holds_terminal v)) v (omega arith) refl refl refl refl)),
  )
  terminal_closed v w x r q (inr (s, z)) = inr (s, rw z refl)

  -- A log that is held, in a directory that was made or was there.
  abbrev with_log : ℕ → Held → Held
  with_log made u = record u { logs = u.logs + 1; directories = u.directories + made }

  with_output-held :
      (made : ℕ) (l : Log) (u : Held)
      → IsEither
          (with_log made u)
          (with_adopted d.has_master made u)
          (adopt_with_output identity a d l (with_log made u))
  unfolding adopt_with_output
  with_output-held made l u = elim (Result-cases a.new_terminal) [
    | inl (e, t) ↦ inl (e, rw (t, adopt_with_output) refl)
    | inr (fresh, t) ↦ elim (Result-cases a.restored) [
      | inl (e, t') ↦ inl (
        e,
        rw (t, t', adopt_with_output)
            (ap (λ w. (w, err e))
              (held_eq (closes_terminal (holds_terminal (with_log made u))) (with_log made u)
                (omega arith) refl refl refl refl)),
      )
      | inr (terminal, t') ↦
          rw (t, t', adopt_with_output)
            (terminal_closed (with_log made u) (holds_terminal (with_log made u)) _ _ refl
              (with_terminal-held made terminal l u (holds_terminal (with_log made u)) refl))
    ]
  ]

  lossy_with_log-held :
      (m : Emulator V) (replay : Bytes) (made : ℕ) (l : Log) (u : Held)
      → IsEither
          (with_log made u)
          (with_adopted d.has_master made u)
          (adopt_lossy_with_log identity a d m replay l (with_log made u))
  unfolding adopt_lossy_with_log
  lossy_with_log-held m replay made l u = elim (Result-cases a.new_terminal) [
    | inl (e, t) ↦ inl (e, rw (t, adopt_lossy_with_log) refl)
    | inr (fresh, t) ↦
        rw (t, adopt_lossy_with_log)
          (terminal_closed (with_log made u) (holds_terminal (with_log made u)) _ _ refl (
            with_terminal-held made (replayed m replay fresh) l u (holds_terminal (with_log made u))
              refl))
  ]

  log_closed :
      (u x : Held) (r : Held × Result (Session V))
      → IsEither (with_log 0 u) x r
      → IsEither u x (or_close_log r)
  log_closed u x r (inl (e, z)) = inl (
    e,
    rw z (
        ap (λ w. (w, err e))
          (held_eq (closes_log (with_log 0 u)) u refl (omega arith) (omega arith) refl refl)),
  )
  log_closed u x r (inr (s, z)) = inr (s, rw z refl)

  log_discarded :
      (u x : Held) (r : Held × Result (Session V))
      → IsEither (with_log 1 u) x r
      → IsEither u x (or_discard_log r)
  unfolding discard_log
  log_discarded u x r (inl (e, z)) = inl (
    e,
    rw z (
        ap (λ w. (w, err e))
          (held_eq (discard_log (with_log 1 u)) u refl (omega arith) (omega arith) refl refl)),
  )
  log_discarded u x r (inr (s, z)) = inr (s, rw z refl)

  no_directory : (u : Held) → holds_log u ≡ with_log 0 u
  no_directory u = held_eq (holds_log u) (with_log 0 u) refl refl (omega arith) refl refl

  adopt_state-held :
      (u : Held) → IsEither u (with_adopted d.has_master 0 u) (adopt_state identity a d u)
  unfolding adopt_state
  adopt_state-held u =
      elim (Result-cases (adopt_output_log a.opened a.listed a.files d.directory d.generation)) [
        | inl (e, q) ↦ inl (e, rw (q, adopt_state) refl)
        | inr (l, q) ↦
            rw (q, adopt_state)
              (log_closed u _ _ (
                subst
                  (λ w.
                    IsEither (with_log 0 u) (with_adopted d.has_master 0 u)
                      (adopt_with_output identity a d l w))
                  (sym (no_directory u)) (with_output-held 0 l u)))
      ]

  adopt_lossy_state-held :
      (m : Emulator V) (replay : Bytes) (u : Held)
      → (made : ℕ) × (made ≤ 1)
        × IsEither u (with_adopted d.has_master made u) (adopt_lossy_state identity a d m replay u)
  unfolding adopt_lossy_state
  adopt_lossy_state-held m replay u =
      elim (Result-cases (adopt_output_log a.opened a.listed a.files d.directory d.generation)) [
        | inr (l, q) ↦ (
          0,
          omega arith,
          rw (q, adopt_lossy_state)
              (log_closed u _ _ (
                subst
                  (λ w.
                    IsEither (with_log 0 u) (with_adopted d.has_master 0 u)
                      (adopt_lossy_with_log identity a d m replay l w))
                  (sym (no_directory u)) (lossy_with_log-held m replay 0 l u))),
        )
        | inl (e, q) ↦ (
          1,
          omega arith,
          elim (create_held a.created u) [
            | inl (f, z) ↦ inl (f, rw (q, z, adopt_lossy_state) refl)
            | inr (l, z) ↦
                rw (q, z, adopt_lossy_state)
                  (log_discarded u _ _ (lossy_with_log-held m replay 1 l u))
          ],
        )
      ]

  -- Both ways to take a session over, with its snapshot or without, leave what was held before if
  -- they fail; if they succeed, one emulator is held more, and for a session that still runs an
  -- open log and a wake pipe, and the way without a snapshot may have made one directory.
  pub adoption-held :
      (m : Emulator V) (replay : Bytes) (u : Held)
      → IsEither u (with_adopted d.has_master 0 u) (adopt_state identity a d u)
        × ((made : ℕ) × (made ≤ 1)
            × IsEither u
                (with_adopted d.has_master made u)
                (adopt_lossy_state identity a d m replay u))
  adoption-held m replay u = (adopt_state-held u, adopt_lossy_state-held m replay u)
