-- ===== src/Session/Follows.antt =====
-- process.go: what the loops read goes to the log and to the emulator alike.
use ghostline.Prelude.{
  ℕ, ◌+◌, ◌≤◌, ◌≡◌, ◌≢◌, ◌⊎◌, inl, inr, refl, sym, ◌∙◌, ap, subst, Bool, true, false, Option, none,
  some, List, [], ◌∷◌, ◌++◌, Bytes, length, arith, append_assoc, append-nil,
}
use ghostline.Errors.{Error, Result, ok, err}
use ghostline.Output.Cursor.{Cursor, max_int64}
use ghostline.Output.Log.{Log, WriteAnswer, active_segment, append, end_cursor}
use ghostline.Output.Log.Invariant.{IsLog}
use ghostline.Output.Log.Append.{append-IsLog, append_outcome}
use ghostline.Output.Log.Stream.{stream, IsPosition}
use ghostline.Output.Log.Growth.{Extends, stream-append}
use ghostline.Session.{Emulator, IsStreaming, Session, absorb, fed}
use ghostline.Session.Drain.{Round, drain_output_from}

-- `s'` is `s` after more output: what the log has gained at the cursor is what the emulator has
-- been fed.
pub record Follows {V : Type 0} (m : Emulator V) (c : Cursor) (s s' : Session V) : Type 0 where
  pub log : IsLog s'.output
  pub position : IsPosition s'.output c
  pub extra : Bytes
  pub grown : stream s'.output c ≡ stream s.output c ++ extra
  pub shown : s'.terminal ≡ m.feed extra s.terminal

-- The bytes of all rounds.
abbrev pub total : List Round → ℕ
total [] = 0
total (r ∷ rounds) = length r.chunk + total rounds

module _ {V : Type 0} (m : Emulator V) (streaming : IsStreaming m) (c : Cursor) where
  pub Follows-refl : (s : Session V) → IsLog s.output → IsPosition s.output c → Follows m c s s
  Follows-refl s v p = record {
    log = v;
    position = p;
    extra = [];
    grown = sym (append-nil _);
    shown = sym (streaming.feed-nil s.terminal);
  }

  pub Follows-trans :
      (s s' s'' : Session V) → Follows m c s s' → Follows m c s' s'' → Follows m c s s''
  Follows-trans s s' s'' f g = record {
    log = g.log;
    position = g.position;
    extra = f.extra ++ g.extra;
    grown =
        g.grown ∙ ap (λ w. w ++ g.extra) f.grown ∙ append_assoc (stream s.output c) f.extra g.extra;
    shown =
        g.shown
        ∙ ap (m.feed g.extra) f.shown
        ∙ sym (streaming.feed-append f.extra g.extra s.terminal);
  }

  fed-Follows :
      (chunk : Bytes) (s : Session V) (r : Log × Option Error)
      → IsLog r.0
      → ((r.1 ≡ none) × Extends s.output c chunk r.0) ⊎ ((r.1 ≢ none) × Extends s.output c [] r.0)
      → Follows m c s (fed m chunk s r).0
  fed-Follows chunk s (l, none) v (inl (e, (p, q))) = record {
    log = v;
    position = p;
    extra = chunk;
    grown = q;
    shown = refl;
  }
  fed-Follows chunk s (l, none) v (inr (n, x)) = absurd (n refl)
  fed-Follows chunk s (l, some e) v (inl (f, x)) = cc
  fed-Follows chunk s (l, some e) v (inr (n, (p, q))) = record {
    log = v;
    position = p;
    extra = [];
    grown = q;
    shown = sym (streaming.feed-nil s.terminal);
  }

  pub absorb-Follows :
      (answers : List WriteAnswer) (chunk : Bytes) (s : Session V)
      → (active_segment s.output).size + length chunk ≤ max_int64
      → IsLog s.output
      → IsPosition s.output c
      → Follows m c s (absorb m answers chunk s).0
  unfolding absorb
  absorb-Follows answers [] s h v p = Follows-refl s v p
  absorb-Follows answers (b ∷ chunk) s h v p =
      fed-Follows (b ∷ chunk) s (append answers (b ∷ chunk) s.output)
        (append-IsLog answers (b ∷ chunk) s.output h v)
        (stream-append answers (b ∷ chunk) s.output c h v p)

fed-output :
    {V : Type 0} (m : Emulator V) (chunk : Bytes) (s : Session V) (r : Log × Option Error)
    → (fed m chunk s r).0.output ≡ r.0
fed-output m chunk s (l, none) = refl
fed-output m chunk s (l, some e) = refl

append_size :
    (answers : List WriteAnswer) (chunk : Bytes) (l : Log)
    → (active_segment l).size + length chunk ≤ max_int64
    → IsLog l
    → (active_segment (append answers chunk l).0).size ≤ (active_segment l).size + length chunk
unfolding end_cursor
append_size answers chunk l h v = elim (append_outcome answers chunk l h v) [
  | inl (e, q) ↦ omega (arith, ap (λ z. z.offset) q)
  | inr (n, x, q) ↦ omega (arith, ap (λ z. z.offset) q)
]

pub absorb_size :
    {V : Type 0} (m : Emulator V) (answers : List WriteAnswer) (chunk : Bytes) (s : Session V)
    → (active_segment s.output).size + length chunk ≤ max_int64
    → IsLog s.output
    → (active_segment (absorb m answers chunk s).0.output).size
      ≤ (active_segment s.output).size + length chunk
unfolding absorb
absorb_size m answers [] s h v = omega arith
absorb_size m answers (b ∷ chunk) s h v =
    rw (fed-output m (b ∷ chunk) s (append answers (b ∷ chunk) s.output))
      (append_size answers (b ∷ chunk) s.output h v)

pub answer_cases :
    (r : Result Bool) → ((e : Error) × (r ≡ err e)) ⊎ ((r ≡ ok false) ⊎ (r ≡ ok true))
answer_cases (err e) = inl (e, refl)
answer_cases (ok false) = inr (inl refl)
answer_cases (ok true) = inr (inr refl)

-- Where one round of drainOutput may leave the session.
drain_output_cases :
    {V : Type 0} (m : Emulator V) (drained : ℕ) (r : Round) (rounds : List Round) (s : Session V)
    → let s' = (absorb m r.writes r.chunk s).0 in
      let result = (drain_output_from m drained (r ∷ rounds) s).0 in
      (result ≡ s)
      ⊎ ((result ≡ s') ⊎ (result ≡ (drain_output_from m (drained + length r.chunk) rounds s').0))
unfolding drain_output_from
drain_output_cases m drained r rounds s = ground arith

module _ {V : Type 0} (m : Emulator V) (streaming : IsStreaming m) (c : Cursor) where
  pub drain_output-Follows :
      (drained : ℕ) (rounds : List Round) (s : Session V)
      → (active_segment s.output).size + total rounds ≤ max_int64
      → IsLog s.output
      → IsPosition s.output c
      → Follows m c s (drain_output_from m drained rounds s).0
  drain_output-Follows drained [] s h v p =
      unfold drain_output_from in Follows-refl m streaming c s v p
  drain_output-Follows drained (r ∷ rounds) s h v p =
      let s' = (absorb m r.writes r.chunk s).0 in
      let one : Follows m c s s' =
        absorb-Follows m streaming c r.writes r.chunk s (omega arith) v p in
      let grown = absorb_size m r.writes r.chunk s (omega arith) v in
      let rest =
        drain_output-Follows (drained + length r.chunk) rounds s' (omega arith) one.log
          one.position in
      elim (drain_output_cases m drained r rounds s) [
        | inl e ↦ subst (Follows m c s) (sym e) (Follows-refl m streaming c s v p)
        | inr (inl e) ↦ subst (Follows m c s) (sym e) one
        | inr (inr e) ↦ subst (Follows m c s) (sym e) (Follows-trans m streaming c s s' _ one rest)
      ]
