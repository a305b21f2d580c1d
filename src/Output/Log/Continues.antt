-- ===== src/Output/Log/Continues.antt =====
-- `append` on a log that stays open.
use ghostline.Prelude.{
  ◌+◌, ◌≤◌, ◌≡◌, inl, inr, refl, sym, ◌∙◌, ap, false, Option, none, List, Bytes, length, arith,
}
use ghostline.Errors.{Error}
use ghostline.Output.Cursor.{max_int64}
use ghostline.Output.Log.{
  Log, WriteAnswer, active_segment, append, end_cursor, signal, grow, write_active,
}
use ghostline.Output.Log.Invariant.{IsLog}
use ghostline.Output.Log.Append.{
  Appended, nothing, refused, recorded, failed, append_cases, append_outcome, append-IsLog,
  failed_lem,
}

-- `l'` is `l` with more output in the same generation, still open and under the same marks.
pub record Continues (l l' : Log) : Type 0 where
  pub valid : IsLog l'
  pub still_open : l'.closed ≡ false
  pub same_marks : l'.sizes ≡ l.sizes
  pub same_generation : l'.generation ≡ l.generation
  pub longer : (active_segment l).size ≤ (active_segment l').size

pub Continues-refl : (l : Log) → IsLog l → l.closed ≡ false → Continues l l
Continues-refl l v o = record {
  valid = v;
  still_open = o;
  same_marks = refl;
  same_generation = refl;
  longer = omega arith;
}

pub Continues-trans : (l l' l'' : Log) → Continues l l' → Continues l' l'' → Continues l l''
Continues-trans l l' l'' f g = record {
  valid = g.valid;
  still_open = g.still_open;
  same_marks = g.same_marks ∙ f.same_marks;
  same_generation = g.same_generation ∙ f.same_generation;
  longer = omega (arith, f.longer, g.longer);
}

append_kept :
    (answers : List WriteAnswer) (chunk : Bytes) (l : Log)
    → l.closed ≡ false
    → (append answers chunk l).1 ≡ none
    → let l' = (append answers chunk l).0 in (l'.closed ≡ false) × (l'.sizes ≡ l.sizes)
unfolding signal grow write_active
append_kept answers chunk l o e = go (append answers chunk l) (append_cases answers chunk l) e
  where
    go :
        (r : Log × Option Error)
        → Appended chunk l r
        → r.1 ≡ none
        → (r.0.closed ≡ false) × (r.0.sizes ≡ l.sizes)
    go r (nothing z q) e = rw q (o, refl)
    go r (refused c q) e = absurd (cc)
    go r (recorded _ q) e = rw q (o, refl)
    go r (failed _ written cause q) e =
        absurd ((failed_lem cause written l).0 (sym (ap (λ p. p.1) q) ∙ e))

pub append-Continues :
    (answers : List WriteAnswer) (chunk : Bytes) (l : Log)
    → (active_segment l).size + length chunk ≤ max_int64
    → IsLog l
    → l.closed ≡ false
    → (append answers chunk l).1 ≡ none
    → Continues l (append answers chunk l).0
unfolding end_cursor
append-Continues answers chunk l h v o e =
    let (still, marks) = append_kept answers chunk l o e in
    elim (append_outcome answers chunk l h v) [
      | inr (n, _, _) ↦ absurd (n e)
      | inl (_, q) ↦ record {
        valid = append-IsLog answers chunk l h v;
        still_open = still;
        same_marks = marks;
        same_generation = ap (λ z. z.generation) q;
        longer = omega (arith, ap (λ z. z.offset) q);
      }
    ]
