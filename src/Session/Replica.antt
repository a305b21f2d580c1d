-- ===== src/Session/Replica.antt =====
-- process.go and session.go: whoever installs a captured state and then applies the output from
-- its cursor shows what the session shows.
use ghostline.Prelude.{
  ℕ, ◌+◌, ◌≤◌, ◌≡◌, inl, inr, refl, sym, ◌∙◌, ap, subst, Bool, true, false, Option, [], ◌++◌,
  length, arith, append-nil, Option-cases, length-take,
}
use ghostline.Errors.{Result, err, Error, ok}
use ghostline.Hub.{Hub}
use ghostline.Migration.{MigrationTicket, mark_stopped}
use ghostline.Output.Cursor.{Cursor, max_int64}
use ghostline.Output.Log.{Log, active_segment, cursor, end_cursor, rotate, prune}
use ghostline.Output.Log.Invariant.{IsLog}
use ghostline.Output.Log.Stream.{stream, IsPosition, contents}
use ghostline.Output.Log.Growth.{Extends, contents_active}
use ghostline.Output.Reader.Windows.{stream_of-end}
use ghostline.Output.Log.Rotate.{rotate_outcome}
use ghostline.Output.Log.Retention.{prune-Extends}
use ghostline.Session.{Emulator, IsStreaming, Session, absorb}
use ghostline.Session.Drain.{Round, drain_output_from, drain_output}
use ghostline.Session.CopyLoop.{
  Pass, Point, at_top, awaits, returned, copy_step, copy_top, copy_decided, read_chunk, paused,
  pausing, after_read, change_ticket,
}
use ghostline.Session.Poll.{wait_readable, wait_output_or_migration}
use ghostline.Session.Local.{
  rotate_output, prune_output, atomic_state, captured_state, encode_atomic, check_current,
  AtomicState,
}
use ghostline.Session.Follows.{
  Follows, total, Follows-refl, Follows-trans, absorb-Follows, drain_output-Follows, answer_cases,
}

module _ {V : Type 0} (m : Emulator V) (streaming : IsStreaming m) (c : Cursor) where
  after_read-Follows :
      (read_error : Option Error) (s : Session V) (r : Session V × Option Error)
      → Follows m c s r.0
      → Follows m c s (after_read m read_error r).0
  after_read-Follows read_error s (s', e) f = f

  read_chunk-Follows :
      (r : Round) (s : Session V)
      → (active_segment s.output).size + length r.chunk ≤ max_int64
      → IsLog s.output
      → IsPosition s.output c
      → Follows m c s (read_chunk m r s).0
  unfolding read_chunk
  read_chunk-Follows r s h v p = elim (answer_cases (wait_readable s.has_master r.polled)) [
    | inl (e, q) ↦ rw (q, read_chunk) (Follows-refl m streaming c s v p)
    | inr (inl q) ↦ rw (q, read_chunk) (Follows-refl m streaming c s v p)
    | inr (inr q) ↦
        rw (q, read_chunk)
          (after_read-Follows r.read_error s (absorb m r.writes r.chunk s)
            (absorb-Follows m streaming c r.writes r.chunk s h v p))
  ]

  paused-Follows :
      (n : ℕ) (s : Session V) (r : Session V × Option Error)
      → Follows m c s r.0
      → Follows m c s (paused m n r).0
  paused-Follows n s (s', e) f = record {
    log = f.log;
    position = f.position;
    extra = f.extra;
    grown = f.grown;
    shown = f.shown;
  }

  ticket-Follows :
      (n : ℕ) (t : MigrationTicket → MigrationTicket) (s : Session V)
      → IsLog s.output
      → IsPosition s.output c
      → Follows m c s (change_ticket t n s)
  ticket-Follows n t s v p =
      let f = Follows-refl m streaming c s v p in
      record {
        log = f.log;
        position = f.position;
        extra = f.extra;
        grown = f.grown;
        shown = f.shown;
      }

  copy_step-Follows :
      (pass : Pass) (s : Session V) (at' : Point)
      → (active_segment s.output).size + length pass.round.chunk ≤ max_int64
      → (active_segment s.output).size + total pass.rounds ≤ max_int64
      → IsLog s.output
      → IsPosition s.output c
      → Follows m c s (copy_step m pass s at').0
  unfolding copy_step copy_top copy_decided drain_output
  copy_step-Follows pass s at_top h k v p = elim (Option-cases (pausing s.handoff)) [
    | inr (n, e) ↦
        rw (e, copy_top)
          (paused-Follows n s (drain_output_from m 0 pass.rounds s)
            (drain_output-Follows m streaming c 0 pass.rounds s k v p))
    | inl e ↦
        let waiting = wait_output_or_migration s.has_master s.has_wake pass.first in
        elim (Option-cases waiting) [
          | inl w ↦ rw (e, w, copy_top) (Follows-refl m streaming c s v p)
          | inr (answer, w) ↦ elim (answer_cases answer) [
            | inl (cause, q) ↦ rw (e, w, q, copy_top) (Follows-refl m streaming c s v p)
            | inr (inl q) ↦ rw (e, w, q, copy_top) (Follows-refl m streaming c s v p)
            | inr (inr q) ↦ rw (e, w, q, copy_top) (read_chunk-Follows pass.round s h v p)
          ]
        ]
  ]
  copy_step-Follows pass s (awaits n e) h k v p =
      elim (Option-cases (s.handoff.tickets n).decision) [
        | inl q ↦ rw (q, copy_decided) (Follows-refl m streaming c s v p)
        | inr (d, q) ↦ rw (q, copy_decided) (ticket-Follows n mark_stopped s v p)
      ]
  copy_step-Follows pass s (returned true) h k v p = Follows-refl m streaming c s v p
  copy_step-Follows pass s (returned false) h k v p = Follows-refl m streaming c s v p

-- What may happen to a session between two changes of its size: passes of the copy loop, and
-- rotations and prunes of its output. The bytes of a pass fit the active segment.
pub data OutputSteps {V : Type 0} (m : Emulator V) (s : Session V) : Session V → Type 0 where
  here : OutputSteps m s s
  copies :
      {s' : Session V}
      → OutputSteps m s s'
      → (pass : Pass) (at' : Point)
      → (active_segment s'.output).size + length pass.round.chunk ≤ max_int64
      → (active_segment s'.output).size + total pass.rounds ≤ max_int64
      → OutputSteps m s (copy_step m pass s' at').0
  rotates :
      {s' : Session V}
      → OutputSteps m s s'
      → (context_done : Bool) (created : Option Error)
      → OutputSteps m s (rotate_output context_done created s').0
  prunes :
      {s' : Session V}
      → OutputSteps m s s'
      → (context_done : Bool) (removed : ℕ → Option Error) (before : Cursor)
      → OutputSteps m s (prune_output context_done removed before s').0

module _ {V : Type 0} (m : Emulator V) (streaming : IsStreaming m) (c : Cursor) where
  Extends-Follows :
      (s : Session V) (l : Log)
      → IsLog l
      → Extends s.output c [] l
      → Follows m c s (record s { output = l })
  Extends-Follows s l v (p, q) = record {
    log = v;
    position = p;
    extra = [];
    grown = q;
    shown = sym (streaming.feed-nil s.terminal);
  }

  rotate_output-Follows :
      (context_done : Bool) (created : Option Error) (s : Session V)
      → IsLog s.output
      → IsPosition s.output c
      → Follows m c s (rotate_output context_done created s).0
  rotate_output-Follows true created s v p =
      unfold rotate_output in Follows-refl m streaming c s v p
  rotate_output-Follows false created s v p =
      unfold rotate_output in
      (elim (rotate_outcome created s.output c v p) [
        | inl (e, q, same) ↦
            subst (λ l. Follows m c s (record s { output = l })) (sym same)
              (Extends-Follows s s.output v (p, sym (append-nil _)))
        | inr (q, w, z, x) ↦ Extends-Follows s (rotate created s.output).0 w x
      ])

  prune_output-Follows :
      (context_done : Bool) (removed : ℕ → Option Error) (before : Cursor) (s : Session V)
      → IsLog s.output
      → IsPosition s.output c
      → Follows m c s (prune_output context_done removed before s).0
  prune_output-Follows true removed before s v p =
      unfold prune_output in Follows-refl m streaming c s v p
  prune_output-Follows false removed before s v p =
      unfold prune_output in
      (let (w, x) = prune-Extends removed before c s.output v p in
        Extends-Follows s (prune removed before s.output).0 w x)

  steps-Follows :
      (s s' : Session V)
      → OutputSteps m s s'
      → IsLog s.output
      → IsPosition s.output c
      → Follows m c s s'
  steps-Follows s _ here v p = Follows-refl m streaming c s v p
  steps-Follows s _ (copies {s'} before pass at' h k) v p =
      let f = steps-Follows s s' before v p in
      Follows-trans m streaming c s s' _ f
        (copy_step-Follows m streaming c pass s' at' h k f.log f.position)
  steps-Follows s _ (rotates {s'} before context_done created) v p =
      let f = steps-Follows s s' before v p in
      Follows-trans m streaming c s s' _ f
        (rotate_output-Follows context_done created s' f.log f.position)
  steps-Follows s _ (prunes {s'} before context_done removed boundary) v p =
      let f = steps-Follows s s' before v p in
      Follows-trans m streaming c s s' _ f
        (prune_output-Follows context_done removed boundary s' f.log f.position)

end_cursor-IsPosition : (l : Log) → IsLog l → IsPosition l (end_cursor l)
unfolding end_cursor
end_cursor-IsPosition l v = (
  v.numbered.0,
  omega arith,
  rw (contents_active l)
      (omega (arith, v.written, length-take (active_segment l).size (l.files l.generation))),
)

stream-end_cursor : (l : Log) → stream l (end_cursor l) ≡ []
unfolding end_cursor
stream-end_cursor l = stream_of-end (contents l) l.generation (end_cursor l) refl (
    rw (contents_active l)
      (omega (arith, length-take (active_segment l).size (l.files l.generation))))

-- The captured state is that of the session once its emulator is repaired, and its cursor is the
-- end of the log.
captured_parts :
    {V : Type 0} (m : Emulator V) (s : Session V) {a : AtomicState}
    → captured_state m s ≡ ok a
    → (m.encode s.terminal ≡ ok a.payload) × (a.cursor ≡ end_cursor s.output)
unfolding cursor
captured_parts m s e = (ground (arith, e), ground (arith, e))

encode_atomic_parts :
    {V : Type 0} (m : Emulator V) (s s₁ : Session V) (checked : Result (Unit {0})) (a : AtomicState)
    → encode_atomic m s checked ≡ (s₁, ok a)
    → (s₁ ≡ record s { terminal = m.repair s.terminal })
      × (captured_state m (record s { terminal = m.repair s.terminal }) ≡ ok a)
encode_atomic_parts m s s₁ (err e) a q = absurd (cc (ap (λ r. r.1) q))
encode_atomic_parts m s s₁ (ok checked) a q = (sym (ap (λ r. r.0) q), ap (λ r. r.1) q)

-- A consumer that installs the state captured by AtomicState, and then applies the raw output
-- from its cursor, has the emulator state of the session after any passes of the copy loop,
-- rotations and prunes that keep the segments within a signed 64-bit size: no byte at the
-- boundary is lost or applied twice. The state that is captured is the one to which the call
-- repairs the session's emulator.
pub atomic_state-replica :
    {V : Type 0} (m : Emulator V)
    → IsStreaming m
    → (context_done : Bool) (h : Hub) (s s₁ s' : Session V) (a : AtomicState) → IsLog s.output
    → atomic_state m context_done h s ≡ (s₁, ok a)
    → OutputSteps m s₁ s'
    → (m.encode (m.repair s.terminal) ≡ ok a.payload)
      × IsPosition s'.output a.cursor
      × (s'.terminal ≡ m.feed (stream s'.output a.cursor) (m.repair s.terminal))
unfolding atomic_state
atomic_state-replica m streaming context_done h s s₁ s' a v e steps =
    let r = record s { terminal = m.repair s.terminal } in
    let (same, kept) = encode_atomic_parts m s s₁ (check_current context_done h s) a e in
    let (q, z) = captured_parts m r kept in
    let f =
      steps-Follows m streaming (end_cursor s.output) r s'
        (subst (λ x. OutputSteps m x s') same steps) v (end_cursor-IsPosition s.output v) in
    rw z (
      q,
      f.position,
      f.shown
          ∙ ap (λ w. m.feed w r.terminal)
              (sym (f.grown ∙ ap (λ w. w ++ f.extra) (stream-end_cursor s.output))),
    )
