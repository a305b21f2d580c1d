-- ===== src/Session/Signals.antt =====
-- session.go: what Signal does.
use ghostline.Prelude.{
  ℕ, zero, suc, ◌≡◌, ◌⊎◌, inl, inr, refl, ◌∙◌, ap, subst, Bool, true, false, ◌||◌, none, some,
  arith, if◌then◌else◌, Bool-cases, Option-cases,
}
use ghostline.Prelude.Int.{ℤ, pos, negsuc, nonpositive}
use ghostline.Errors.{Error, Result, Result-cases, ok, err, canceled, session_closed, process_done}
use ghostline.Hub.{Hub}
use ghostline.Session.{Session}
use ghostline.Session.Local.{
  SignalAnswers, Target, foreground_group, process_group, kill_group, signal_group, deliver_signal,
  signal_session, check_current, current, is_errno, or_done, errno_esrch, errno_eio, errno_enotty,
  errno_einval,
}

-- The errors that mean that the system does not have the ioctl.
abbrev pub is_unsupported : Error → Bool
is_unsupported e = is_errno errno_enotty e || is_errno errno_einval e

-- What a delivery can be.
abbrev pub DeliveredBy : SignalAnswers → Result Target → Type 0
DeliveredBy a r =
    ((r ≡ ok foreground_group) × (a.ioctl ≡ none))
    ⊎ (((g : ℕ) × (e : Error) × (r ≡ ok (process_group (suc g)))
          × (a.ioctl ≡ some e)
          × (is_unsupported e ≡ true)
          × (a.group ≡ ok (pos (suc g)))
          × (a.kill ≡ none))
        ⊎ ((e : Error) × (r ≡ err e) × (is_errno errno_esrch e ≡ false)))

or_done_lem : (e : Error) → is_errno errno_esrch (or_done e) ≡ false
or_done_lem e = elim (Bool-cases (is_errno errno_esrch e)) [
  | inl q ↦ ap (λ b. is_errno errno_esrch (if b then process_done else e)) q
  | inr q ↦ ap (λ b. is_errno errno_esrch (if b then process_done else e)) q ∙ q
]

fails : (a : SignalAnswers) (e : Error) → is_errno errno_esrch e ≡ false → DeliveredBy a (err e)
fails a e q = inr (inr (e, refl, q))

kill_group-DeliveredBy :
    (a : SignalAnswers) (e : Error) (g : ℤ)
    → a.ioctl ≡ some e
    → is_unsupported e ≡ true
    → a.group ≡ ok g
    → DeliveredBy a (kill_group a g)
kill_group-DeliveredBy a e (negsuc n) i u q = fails a process_done refl
kill_group-DeliveredBy a e (pos zero) i u q = fails a process_done refl
kill_group-DeliveredBy a e (pos (suc n)) i u q = elim (Option-cases a.kill) [
  | inl k ↦
      subst (DeliveredBy a) {x = ok (process_group (suc n))} (ground (arith, k))
        (inr (inl (n, e, refl, i, u, q, k)))
  | inr (f, k) ↦
      subst (DeliveredBy a) {x = err (or_done f)} (ground (arith, k))
        (fails a (or_done f) (or_done_lem f))
]

signal_group-DeliveredBy :
    (a : SignalAnswers) (e : Error)
    → a.ioctl ≡ some e
    → is_unsupported e ≡ true
    → DeliveredBy a (signal_group a)
signal_group-DeliveredBy a e i u = elim (Result-cases a.group) [
  | inl (f, q) ↦
      subst (DeliveredBy a) {x = err (or_done f)} (ground (arith, q))
        (fails a (or_done f) (or_done_lem f))
  | inr (g, q) ↦
      subst (DeliveredBy a) {x = kill_group a g} (ground (arith, q))
        (kill_group-DeliveredBy a e g i u q)
]

deliver_signal-DeliveredBy : (a : SignalAnswers) → DeliveredBy a (deliver_signal a)
unfolding deliver_signal
deliver_signal-DeliveredBy a = elim (Option-cases a.ioctl) [
  | inl i ↦ subst (DeliveredBy a) {x = ok foreground_group} (ground (arith, i)) (inl (refl, i))
  | inr (e, i) ↦ elim (Bool-cases (is_unsupported e)) [
    | inl u ↦
        subst (DeliveredBy a) {x = signal_group a} (ground (arith, i, u))
          (signal_group-DeliveredBy a e i u)
    | inr u ↦ elim (Bool-cases (is_errno errno_esrch e || is_errno errno_eio e)) [
      | inl w ↦
          subst (DeliveredBy a) {x = err process_done} (ground (arith, i, u, w))
            (fails a process_done refl)
      | inr w ↦
          subst (DeliveredBy a) {x = err e} (ground (arith, i, u, w))
            (fails a e (ground (arith, w)))
    ]
  ]
]

-- A signal that is sent without an error reached either the foreground process group of the PTY,
-- or, only where the system does not know that request, the process group of the session, which
-- is a positive number; an error is never the system's "no such process".
pub signal_session_outcome :
    {V : Type 0} (context_done : Bool) (h : Hub) (a : SignalAnswers) (s : Session V)
    → DeliveredBy a (signal_session context_done h a s)
unfolding signal_session check_current
signal_session_outcome context_done h a s = elim (Bool-cases context_done) [
  | inl c ↦ subst (DeliveredBy a) {x = err canceled} (ground (arith, c)) (fails a canceled refl)
  | inr c ↦ elim (Bool-cases (current h s)) [
    | inr k ↦
        subst (DeliveredBy a) {x = err session_closed} (ground (arith, c, k))
          (fails a session_closed refl)
    | inl k ↦ elim (Bool-cases (s.handoff.session_done || nonpositive s.pid)) [
      | inl d ↦
          subst (DeliveredBy a) {x = err process_done} (ground (arith, c, k, d))
            (fails a process_done refl)
      | inr d ↦
          subst (DeliveredBy a) {x = deliver_signal a} (ground (arith, c, k, d))
            (deliver_signal-DeliveredBy a)
    ]
  ]
]
