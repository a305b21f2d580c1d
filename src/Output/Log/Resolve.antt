-- ===== src/Output/Log/Resolve.antt =====
-- Which cursors a log serves.
use ghostline.Prelude.{
  ℕ, ◌≤◌, ◌<◌, ◌≡◌, ◌≢◌, ◌⊎◌, inl, inr, refl, ap, subst, sym, true, Option, none, some, List, [],
  ◌∷◌, ltb, ◌==◌, if◌then◌else◌, is_some, length, length-take, arith, Bool-cases, Option-cases,
  ==_refl,
}
use ghostline.Prelude.Maps.{lookup}
use ghostline.Errors.{Error, ok, err, invalid_cursor, cursor_expired}
use ghostline.Output.Cursor.{Cursor, max_int64, zero_cursor, cursor_eq_iff}
use ghostline.Output.Log.{
  Log, Segment, active_segment, prune, resolve_cursor, resolve_in, earliest, start_of,
}
use ghostline.Output.Log.Invariant.{IsLog}
use ghostline.Output.Log.Stream.{IsPosition, contents}
use ghostline.Output.Log.Retention.{lookup-prune, generation-prune}

-- The generation that `earliest` finds: the bound or one of the keys, and no key is smaller.
earliest_cases :
    (generation : ℕ) (segments : List (ℕ × Segment))
    → (earliest generation segments ≡ generation)
      ⊎ (is_some (lookup (earliest generation segments) segments) ≡ true)
unfolding earliest lookup
earliest_cases generation [] = inl refl
earliest_cases generation ((k, s) ∷ rest) =
    ground (arith, earliest_cases (if ltb k generation then k else generation) rest)

earliest-le_bound :
    (generation : ℕ) (segments : List (ℕ × Segment)) → earliest generation segments ≤ generation
unfolding earliest
earliest-le_bound generation [] = omega arith
earliest-le_bound generation ((k, s) ∷ rest) =
    ground (arith, earliest-le_bound (if ltb k generation then k else generation) rest)

earliest-le :
    (generation g : ℕ) (segments : List (ℕ × Segment))
    → is_some (lookup g segments) ≡ true
    → earliest generation segments ≤ g
unfolding earliest lookup
earliest-le generation g [] h = cc
earliest-le generation g ((k, s) ∷ rest) h = ground (
  arith,
  earliest-le_bound (if ltb k generation then k else generation) rest,
  earliest-le (if ltb k generation then k else generation) g rest,
)

-- The zero cursor opens the oldest segment that is left, at its first byte.
pub resolve-zero_cursor :
    (l : Log) (g : ℕ)
    → IsLog l
    → is_some (lookup g l.segments) ≡ true
    → (resolve_cursor l zero_cursor ≡ ok (start_of (earliest l.generation l.segments)))
      × (is_some (lookup (earliest l.generation l.segments) l.segments) ≡ true)
      × (earliest l.generation l.segments ≤ g)
unfolding resolve_cursor
resolve-zero_cursor l g v h = (
  refl,
  ground (arith, earliest_cases l.generation l.segments, v.present),
  earliest-le l.generation g l.segments h,
)

-- A segment that is left is as long as its recorded size.
pub length-contents :
    (l : Log) (g : ℕ) (s : Segment)
    → IsLog l
    → lookup g l.segments ≡ some s
    → length (contents l g) ≡ s.size
unfolding contents
length-contents l g s v e = elim (Bool-cases (g == l.generation)) [
  | inl q ↦
      let p : g ≡ l.generation = ground arith in
      let a : (active_segment l).size ≡ s.size =
        subst (λ j. lookup j l.segments ≡ some s → (active_segment l).size ≡ s.size) (sym p)
          (λ k. rw k refl) e in
      rw (p, ==_refl l.generation)
        (omega (arith, length-take (active_segment l).size (l.files l.generation), v.written, a))
  | inr q ↦ rw q (sym (v.completed g s e (ground arith)))
]

pub missing_cases : (l : Log) (g : ℕ) → IsLog l → lookup g l.segments ≡ none → g ≢ l.generation
missing_cases l g v e q = ground (arith, v.present, ap (λ j. is_some (lookup j l.segments)) q)

-- A cursor that is not zero is served as it is, and then its offset fits a file position and it is
-- a position of a segment that is left; or it is refused as expired, and then its offset fits too,
-- its segment is gone and was not the active one; or it is refused as invalid, and then its offset
-- fits no file position or it is no position of the log.
pub resolve_exact :
    (l : Log) (c : Cursor)
    → IsLog l
    → c ≢ zero_cursor
    → ((resolve_cursor l c ≡ ok c)
        × (c.offset ≤ max_int64)
        × IsPosition l c
        × (is_some (lookup c.generation l.segments) ≡ true))
      ⊎ ((resolve_cursor l c ≡ err cursor_expired)
          × (c.offset ≤ max_int64)
          × (0 < c.generation)
          × (c.generation < l.generation)
          × (lookup c.generation l.segments ≡ none))
      ⊎ ((resolve_cursor l c ≡ err invalid_cursor) × ((max_int64 < c.offset) ⊎ (¬ IsPosition l c)))
unfolding resolve_cursor resolve_in
resolve_exact l c v n = elim (Option-cases (lookup c.generation l.segments)) [
  | inl e ↦ ground (arith, cursor_eq_iff c zero_cursor, missing_cases l c.generation v e)
  | inr (s, e) ↦ ground (
    arith,
    cursor_eq_iff c zero_cursor,
    v.keys c.generation s e,
    length-contents l c.generation s v e,
  )
]

-- After a prune that succeeds, a cursor of a removed generation is refused as expired, and so a
-- client is told that the bytes are gone, not given others.
pub resolve-prune :
    (removed : ℕ → Option Error) (before c : Cursor) (l : Log)
    → IsLog l
    → (prune removed before l).1 ≡ none
    → 0 < c.generation
    → c.generation < before.generation
    → c.generation < l.generation
    → c.offset ≤ max_int64
    → resolve_cursor (prune removed before l).0 c ≡ err cursor_expired
unfolding resolve_cursor resolve_in
resolve-prune removed before c l v done p h k m = ground (
  arith,
  cursor_eq_iff c zero_cursor,
  generation-prune removed before l,
  lookup-prune removed before l c.generation v,
)
