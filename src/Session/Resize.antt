-- ===== src/Session/Resize.antt =====
-- session.go: what a resize does to the output of its session.
use ghostline.Prelude.{
  ℕ, ◌+◌, ◌≤◌, ◌≡◌, ◌≢◌, ◌⊎◌, inl, inr, refl, sym, ◌∙◌, ap, subst, Bool, false, not, Option, none,
  some, List, [], ◌∷◌, Bytes, length, if◌then◌else◌, arith, Bool-cases,
}
use ghostline.Errors.{Error, Result-cases, ok}
use ghostline.Hub.{Hub}
use ghostline.Size.{
  Size, zero_size, resolve, resolve_outcome, IsValidSize, chosen, size_eq, size_eq_iff,
}
use ghostline.Output.Cursor.{Cursor, max_int64}
use ghostline.Output.Log.{Log, WriteAnswer, active_segment, append, end_cursor}
use ghostline.Output.Log.Invariant.{IsLog}
use ghostline.Output.Log.Continues.{Continues, Continues-refl, Continues-trans, append-Continues}
use ghostline.Output.Marks.{mark_size}
use ghostline.Output.Marks.Order.{Before, size_at}
use ghostline.Output.Marks.Updates.{MarksTo, mark_size-size_at, mark_size-end_cursor, MarksTo-le}
use ghostline.Session.{Emulator, Session, absorb, fed}
use ghostline.Session.Drain.{Round, drain_resize_from, drain_resize_output}
use ghostline.Session.Local.{resize_session, after_drain, current}
use ghostline.Session.Follows.{total, absorb_size}

module _ {V : Type 0} (m : Emulator V) where
  fed-Continues :
      (chunk : Bytes) (s : Session V) (r : Log × Option Error)
      → (fed m chunk s r).1 ≡ none
      → (r.1 ≡ none) × ((fed m chunk s r).0.output ≡ r.0)
  fed-Continues chunk s (l, none) e = (refl, refl)
  fed-Continues chunk s (l, some cause) e = absurd (cc)

  absorb-Continues :
      (answers : List WriteAnswer) (chunk : Bytes) (s : Session V)
      → (active_segment s.output).size + length chunk ≤ max_int64
      → IsLog s.output
      → s.output.closed ≡ false
      → (absorb m answers chunk s).1 ≡ none
      → Continues s.output (absorb m answers chunk s).0.output
  unfolding absorb
  absorb-Continues answers [] s h v o e = Continues-refl s.output v o
  absorb-Continues answers (b ∷ chunk) s h v o e =
      let (q, z) = fed-Continues (b ∷ chunk) s (append answers (b ∷ chunk) s.output) e in
      subst (Continues s.output) (sym z) (append-Continues answers (b ∷ chunk) s.output h v o q)

  -- Where one round of drainResizeOutput may leave the session, if there is no error.
  drain_resize_cases :
      (drained : ℕ) (r : Round) (rounds : List Round) (s : Session V)
      → let (s', e) = absorb m r.writes r.chunk s in
        let result = drain_resize_from m drained (r ∷ rounds) s in
        (result ≡ (s, none))
        ⊎ ((result.1 ≢ none)
            ⊎ ((e ≡ none)
                × ((result ≡ (s', none))
                    ⊎ (result ≡ drain_resize_from m (drained + length r.chunk) rounds s'))))
  unfolding drain_resize_from
  drain_resize_cases drained r rounds s = ground arith

  drain_resize-Continues :
      (drained : ℕ) (rounds : List Round) (s : Session V)
      → (active_segment s.output).size + total rounds ≤ max_int64
      → IsLog s.output
      → s.output.closed ≡ false
      → (drain_resize_from m drained rounds s).1 ≡ none
      → Continues s.output (drain_resize_from m drained rounds s).0.output
  drain_resize-Continues drained [] s h v o e =
      unfold drain_resize_from in Continues-refl s.output v o
  drain_resize-Continues drained (r ∷ rounds) s h v o e =
      let s' = (absorb m r.writes r.chunk s).0 in
      let goal = λ (p : Session V × Option Error). Continues s.output p.0.output in
      let grown = absorb_size m r.writes r.chunk s (omega arith) v in
      let one = absorb-Continues r.writes r.chunk s (omega arith) v o in
      let rest = drain_resize-Continues (drained + length r.chunk) rounds s' (omega arith) in
      elim (drain_resize_cases drained r rounds s) [
        | inl q ↦ subst goal (sym q) (Continues-refl s.output v o)
        | inr (inl n) ↦ absurd (n e)
        | inr (inr (q, inl z)) ↦ subst goal (sym z) (one q)
        | inr (inr (q, inr z)) ↦
            let f = one q in
            subst goal (sym z) (
              Continues-trans s.output s'.output _ f
                (rest f.valid f.still_open (sym (ap (λ p. p.1) z) ∙ e)))
      ]

  -- Where the drain succeeds, the log goes on.
  drain-Continues :
      (rounds : List Round) (s : Session V)
      → (active_segment s.output).size + total rounds ≤ max_int64
      → IsLog s.output
      → s.output.closed ≡ false
      → (drain_resize_output m rounds s).1 ≡ none
      → Continues s.output (drain_resize_output m rounds s).0.output
  drain-Continues rounds s h v o e = elim (Bool-cases s.has_master) [
    | inl q ↦
        let z : drain_resize_output m rounds s ≡ drain_resize_from m 0 rounds s =
          unfold drain_resize_output in
          ap (λ b. if not b then (s, none) else drain_resize_from m 0 rounds s) q in
        subst (λ (p : Session V × Option Error). Continues s.output p.0.output) (sym z)
          (drain_resize-Continues 0 rounds s h v o (sym (ap (λ p. p.1) z) ∙ e))
    | inr q ↦
        let z : drain_resize_output m rounds s ≡ (s, none) =
          unfold drain_resize_output in
          ap (λ b. if not b then (s, none) else drain_resize_from m 0 rounds s) q in
        subst (λ (p : Session V × Option Error). Continues s.output p.0.output) (sym z)
          (Continues-refl s.output v o)
  ]

  resized_parts :
      (set_size : Option Error) (size : Size) (r : Session V × Option Error)
      → (after_drain m set_size size r).1 ≡ none
      → (r.1 ≡ none)
        × ((after_drain m set_size size r).0.size ≡ size)
        × ((after_drain m set_size size r).0.output ≡ mark_size size r.0.output)
        × ((after_drain m set_size size r).0.terminal ≡ m.resize size r.0.terminal)
  resized_parts set_size size (s, some e) h = absurd (cc)
  resized_parts (some e) size (s, none) h = absurd (cc)
  resized_parts none size (s, none) h = (refl, refl, refl, refl)

  resize_parts :
      (context_done : Bool) (h : Hub) (rounds : List Round) (set_size : Option Error) (size : Size)
      (s : Session V)
      → (resize_session m context_done h rounds set_size size s).1 ≡ none
      → ((t : Size) × (resolve size zero_size ≡ ok t))
        × (resize_session m context_done h rounds set_size size s
            ≡ after_drain m set_size size (drain_resize_output m rounds s))
  resize_parts context_done h rounds set_size size s e = elim (Bool-cases context_done) [
    | inl c ↦ absurd (unfold resize_session in ground (arith, c, e))
    | inr c ↦ elim (Result-cases (resolve size zero_size)) [
      | inl (cause, q) ↦ absurd (unfold resize_session in ground (arith, c, e, q))
      | inr (t, q) ↦ elim (Bool-cases (current h s)) [
        | inl k ↦ ((t, q), unfold resize_session in rw (c, q, k, resize_session) refl)
        | inr k ↦ absurd (unfold resize_session in ground (arith, c, e, q, k))
      ]
    ]
  ]

chosen_zero : (size : Size) → chosen size zero_size ≡ size
chosen_zero size = elim (Bool-cases (size_eq size zero_size)) [
  | inl q ↦ rw q (sym ((size_eq_iff size zero_size).0 q))
  | inr q ↦ rw q refl
]

accepted-IsValidSize : (size : Size) {t : Size} → resolve size zero_size ≡ ok t → IsValidSize size
accepted-IsValidSize size e = elim (resolve_outcome size zero_size) [
  | inl (v, q) ↦ subst IsValidSize (chosen_zero size) v
  | inr (n, q) ↦ absurd (cc)
]

-- A resize that succeeds, with an open and well-formed log whose active segment fits a signed
-- 64-bit size also after the drain, was asked for a size that a PTY can have. What stands in the
-- log before its end, drained by the resize itself or earlier, keeps its size; what follows is
-- output for the new size, which is also the size of the session, and the marks stay in order.
pub resize_session-size_at :
    {V : Type 0} (m : Emulator V) (context_done : Bool) (h : Hub) (rounds : List Round)
    (set_size : Option Error) (size : Size) (c : Cursor) (s s' : Session V)
    → (active_segment s.output).size + total rounds ≤ max_int64
    → IsLog s.output
    → s.output.closed ≡ false
    → MarksTo (end_cursor s.output) s.output.sizes
    → resize_session m context_done h rounds set_size size s ≡ (s', none)
    → Before c (end_cursor s'.output)
    → IsValidSize size
      × (s'.size ≡ size)
      × (size_at s'.output.sizes (end_cursor s'.output) ≡ size)
      × (size_at s'.output.sizes c ≡ size_at s.output.sizes c)
      × MarksTo (end_cursor s'.output) s'.output.sizes
unfolding end_cursor
resize_session-size_at m context_done h rounds set_size size c s s' fits v o marks e before =
    let ((t, accepted), same) =
      resize_parts m context_done h rounds set_size size s (ap (λ p. p.1) e) in
    let drained = drain_resize_output m rounds s in
    let (ok', now, log, _) =
      resized_parts m set_size size drained (sym (ap (λ p. p.1) same) ∙ ap (λ p. p.1) e) in
    let same' = ap (λ p. p.0) (sym same ∙ e) in
    let f = drain-Continues m rounds s fits v o ok' in
    let l : s'.output ≡ mark_size size drained.0.output = sym (ap (λ z. z.output) same') ∙ log in
    let end' = ap end_cursor l ∙ mark_size-end_cursor size drained.0.output in
    let marked =
      mark_size-size_at size c drained.0.output f.still_open
        (rw f.same_marks (
          MarksTo-le (end_cursor s.output) (end_cursor drained.0.output) s.output.sizes
            f.same_generation f.longer marks))
        (subst (Before c) end' before) in
    (
      accepted-IsValidSize size accepted,
      sym (ap (λ z. z.size) same') ∙ now,
      ap (λ z. size_at z.sizes (end_cursor s'.output)) l
          ∙ ap (size_at (mark_size size drained.0.output).sizes) end'
          ∙ marked.1,
      ap (λ z. size_at z.sizes c) l ∙ marked.2 ∙ ap (λ z. size_at z c) f.same_marks,
      subst (λ z. MarksTo (end_cursor z) z.sizes) (sym l)
          (subst (λ z. MarksTo z (mark_size size drained.0.output).sizes)
            (sym (mark_size-end_cursor size drained.0.output)) marked.0),
    )
