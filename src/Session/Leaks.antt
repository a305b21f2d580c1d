-- ===== src/Session/Leaks.antt =====
-- process.go: what starting or taking over a session leaves open.
use ghostline.Prelude.{
  ℕ, ◌≡◌, ◌⊎◌, inl, inr, refl, ap, Bool, [], Bytes, arith, Bool-cases, Option-cases,
}
use ghostline.Errors.{Error, Result, Result-cases, ok, err, canceled}
use ghostline.Size.{Size}
use ghostline.Output.Log.{Log}
use ghostline.Output.Open.{open_output_log}
use ghostline.Session.{Session}
use ghostline.Session.Start.{
  Held, StartAnswers, CreateAnswer, start_session, start_with_log, start_child, create_output_log,
  discard_log, holds_terminal, holds_log, holds_directory, holds_pipe, holds_master,
}

-- The resources of a running session that was started here.
abbrev pub with_started : Held → Held
with_started u = holds_master (holds_pipe (holds_log (holds_directory (holds_terminal u))))

abbrev HoldsOnly : {V : Type 0} → Held → Held × Result (Session V) → Type 0
HoldsOnly {V} u r =
    ((e : Error) × (r.1 ≡ err e) × (r.0 ≡ u))
    ⊎ ((s : Session V) × (r.1 ≡ ok s) × (r.0 ≡ with_started u))

pub held_eq :
    (u v : Held)
    → u.terminals ≡ v.terminals
    → u.logs ≡ v.logs
    → u.directories ≡ v.directories
    → u.wake_ends ≡ v.wake_ends
    → u.masters ≡ v.masters
    → u ≡ v
held_eq u v t l d w m =
    λ i. record { terminals = t i; logs = l i; directories = d i; wake_ends = w i; masters = m i }

-- Logs come with a directory, or not at all.
pub create_held :
    (a : CreateAnswer) (u : Held)
    → ((e : Error) × (create_output_log a u ≡ (u, err e)))
      ⊎ ((l : Log) × (create_output_log a u ≡ (holds_log (holds_directory u), ok l)))
unfolding create_output_log
create_held a u = elim (Result-cases a.made) [
  | inl (e, q) ↦ inl (e, rw (q, create_output_log) refl)
  | inr (directory, q) ↦
      elim (Result-cases (open_output_log a.opened a.listed (λ g. []) directory 1)) [
        | inl (e, w) ↦ inl (
          e,
          rw (q, w, create_output_log)
              (ap (λ n. (record u { directories = n }, err e)) (omega arith)),
        )
        | inr (l, w) ↦ inr (l, rw (q, w, create_output_log) refl)
      ]
]

module _ {V : Type 0} (name : Bytes) (identity : ℕ) (size : Size) (a : StartAnswers V) where
  start_with_log-HoldsOnly :
      (terminal : V) (l : Log) (u : Held)
      → HoldsOnly u (
          start_with_log name identity size a terminal
            (holds_log (holds_directory (holds_terminal u)), ok l))
  unfolding start_with_log start_child discard_log
  start_with_log-HoldsOnly terminal l u = elim (Option-cases a.pipe) [
    | inr (e, p) ↦
        rw (p, start_with_log)
          (inl (e, refl, held_eq _ u (omega arith) (omega arith) (omega arith) refl refl))
    | inl p ↦ elim (Result-cases a.started) [
      | inl (e, q) ↦
          rw (p, q, start_with_log, start_child)
            (inl
              (e, refl, held_eq _ u (omega arith) (omega arith) (omega arith) (omega arith) refl))
      | inr (pid, q) ↦ rw (p, q, start_with_log, start_child) (inr (_, refl, refl))
    ]
  ]

  -- A start that fails leaves nothing open and no directory behind; one that succeeds holds one
  -- emulator, one open log in a directory of its own, one wake pipe and one PTY master.
  pub start_session-held :
      (context_done : Bool) (u : Held)
      → let r = start_session name identity size context_done a u in
        ((e : Error) × (r.1 ≡ err e) × (r.0 ≡ u))
        ⊎ ((s : Session V) × (r.1 ≡ ok s) × (r.0 ≡ with_started u))
  unfolding start_session
  start_session-held context_done u = elim (Bool-cases context_done) [
    | inl c ↦ rw (c, start_session) (inl (canceled, refl, refl))
    | inr c ↦ elim (Result-cases a.new_terminal) [
      | inl (e, t) ↦ rw (c, t, start_session) (inl (e, refl, refl))
      | inr (terminal, t) ↦ elim (create_held a.created (holds_terminal u)) [
        | inl (e, q) ↦
            rw (c, t, q, start_session)
              (inl (e, refl, held_eq _ u (omega arith) refl refl refl refl))
        | inr (l, q) ↦ rw (c, t, q, start_session) (start_with_log-HoldsOnly terminal l u)
      ]
    ]
  ]
