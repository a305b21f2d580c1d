-- ===== src/Output/Log/Retention.antt =====
-- `prune` and `resolveCursorLocked`: which cursors a log still serves.
use ghostline.Prelude.{
  ℕ, ◌≤◌, ◌≡◌, ◌≢◌, ◌⊎◌, inl, inr, refl, Bool, true, false, ◌||◌, not, Option, none, some, List, [],
  ◌∷◌, ltb, leb, ◌==◌, if◌then◌else◌, arith, Bool-cases, Option-cases,
}
use ghostline.Prelude.Maps.{lookup, IsDistinct}
use ghostline.Errors.{Error, session_closed, invalid_cursor}
use ghostline.Output.Cursor.{Cursor}
use ghostline.Output.Log.{
  Log, Segment, SizeMark, prune, prune_segments, retained_marks, signal, still_linked,
}
use ghostline.Output.Log.Invariant.{IsLog}
use ghostline.Output.Log.Stream.{IsPosition, contents}
use ghostline.Output.Log.Growth.{Extends, Extends-same}

-- A generation that prune never removes.
abbrev pub is_kept : Cursor → Log → ℕ → Bool
is_kept before l g = leb before.generation g || (g == l.generation)

module _ (removed : ℕ → Option Error) (before generation : ℕ) where
  -- Of the generations to keep nothing goes.
  pub lookup-prune_kept :
      (segments : List (ℕ × Segment)) (g : ℕ)
      → (leb before g || (g == generation)) ≡ true
      → lookup g (prune_segments removed before generation segments).0 ≡ lookup g segments
  unfolding lookup prune_segments
  lookup-prune_kept [] g k = refl
  lookup-prune_kept ((j, s) ∷ rest) g k = ground (arith, lookup-prune_kept rest g k)

  -- Nothing is made up.
  lookup-prune_some :
      (segments : List (ℕ × Segment)) (g : ℕ)
      → IsDistinct segments
      → (lookup g (prune_segments removed before generation segments).0 ≡ none)
        ⊎ (lookup g (prune_segments removed before generation segments).0 ≡ lookup g segments)
  unfolding lookup prune_segments
  lookup-prune_some [] g d = inr refl
  lookup-prune_some ((j, t) ∷ rest) g d = ground (arith, lookup-prune_some rest g d.1)

  IsDistinct-prune :
      (segments : List (ℕ × Segment))
      → IsDistinct segments
      → IsDistinct (prune_segments removed before generation segments).0
  unfolding prune_segments
  IsDistinct-prune [] d = tt
  IsDistinct-prune ((j, t) ∷ rest) d =
      ground (arith, IsDistinct-prune rest d.1, lookup-prune_some rest j d.1)

  -- Without an error all the others are gone.
  pub lookup-prune_gone :
      (segments : List (ℕ × Segment)) (g : ℕ)
      → (prune_segments removed before generation segments).1 ≡ none
      → (leb before g || (g == generation)) ≡ false
      → lookup g (prune_segments removed before generation segments).0 ≡ none
  unfolding lookup prune_segments
  lookup-prune_gone [] g e k = refl
  lookup-prune_gone ((j, s) ∷ rest) g e k = ground (arith, lookup-prune_gone rest g)

-- What prune can do: refuse, stop at a file that cannot be removed, or remove all it was asked to.
pub data Pruned (removed : ℕ → Option Error) (before : Cursor) (l : Log) (r : Log × Option Error)
    : Type 0 where
  refused : (e : Error) → r ≡ (l, some e) → Pruned removed before l r
  stopped :
      (e : Error)
      → r ≡ (
        record l {
          segments = (prune_segments removed before.generation l.generation l.segments).0;
          linked =
              still_linked
                (prune_segments removed before.generation l.generation l.segments).0
                l.segments
                l.linked;
        },
        some e,
      )
      → Pruned removed before l r
  done :
      (before.generation ≤ l.generation)
      → (prune_segments removed before.generation l.generation l.segments).1 ≡ none
      → (kept : List (ℕ × Segment))
      → kept ≡ (prune_segments removed before.generation l.generation l.segments).0
      → r ≡ (
        signal (record l {
          segments = kept;
          linked = still_linked kept l.segments l.linked;
          sizes = retained_marks kept l.sizes;
        }),
        none,
      )
      → Pruned removed before l r

pub prune_cases :
    (removed : ℕ → Option Error) (before : Cursor) (l : Log)
    → Pruned removed before l (prune removed before l)
unfolding prune
prune_cases removed before l = elim (Option-cases l.err) [
  | inr (e, q) ↦ refused e (ground arith)
  | inl q ↦ elim (Bool-cases l.closed) [
    | inl c ↦ refused session_closed (ground arith)
    | inr o ↦
        elim (Bool-cases (
          (before.generation == 0)
          || not (before.offset == 0)
          || ltb l.generation before.generation)) [
            | inl bad ↦ refused invalid_cursor (ground arith)
            | inr fine ↦
                elim (Option-cases
                  (prune_segments removed before.generation l.generation l.segments).1) [
                    | inr (e, p) ↦ stopped e (ground arith)
                    | inl p ↦ done (ground arith) p _ refl (ground arith)
                  ]
          ]
  ]
]

pub generation-prune :
    (removed : ℕ → Option Error) (before : Cursor) (l : Log)
    → (prune removed before l).0.generation ≡ l.generation
unfolding signal
generation-prune removed before l = go (prune removed before l) (prune_cases removed before l)
  where
    go : (r : Log × Option Error) → Pruned removed before l r → r.0.generation ≡ l.generation
    go r (refused e q) = rw q refl
    go r (stopped e q) = rw q refl
    go r (done h e kept k q) = rw q refl

stopped_lem :
    (removed : ℕ → Option Error) (before : Cursor) (l : Log) (g : ℕ)
    → IsLog l
    → let kept = (prune_segments removed before.generation l.generation l.segments).0 in
      (lookup g kept ≡ lookup g l.segments)
      ⊎ ((is_kept before l g ≡ false) × (lookup g kept ≡ none))
stopped_lem removed before l g v = elim (Bool-cases (is_kept before l g)) [
  | inl k ↦ inl (lookup-prune_kept removed before.generation l.generation l.segments g k)
  | inr k ↦
      ground
        (arith, lookup-prune_some removed before.generation l.generation l.segments g v.distinct)
]

done_lem :
    (removed : ℕ → Option Error) (before : Cursor) (l : Log) (g : ℕ)
    → (prune_segments removed before.generation l.generation l.segments).1 ≡ none
    → lookup g (prune_segments removed before.generation l.generation l.segments).0
      ≡ (if is_kept before l g then lookup g l.segments else none)
done_lem removed before l g e = elim (Bool-cases (is_kept before l g)) [
  | inl k ↦ rw k (lookup-prune_kept removed before.generation l.generation l.segments g k)
  | inr k ↦ rw k (lookup-prune_gone removed before.generation l.generation l.segments g e k)
]

-- A prune that succeeds removes exactly the generations before its boundary that are not active,
-- and one that fails removes none but those.
pub lookup-prune :
    (removed : ℕ → Option Error) (before : Cursor) (l : Log) (g : ℕ)
    → IsLog l
    → let (l', e) = prune removed before l in
      ((e ≡ none)
        × (lookup g l'.segments ≡ (if is_kept before l g then lookup g l.segments else none)))
      ⊎ ((e ≢ none)
          × ((lookup g l'.segments ≡ lookup g l.segments)
              ⊎ ((is_kept before l g ≡ false) × (lookup g l'.segments ≡ none))))
unfolding signal prune_segments
lookup-prune removed before l g v = go (prune removed before l) (prune_cases removed before l)
  where
    go :
        (r : Log × Option Error)
        → Pruned removed before l r
        → ((r.1 ≡ none)
            × (lookup g r.0.segments ≡ (if is_kept before l g then lookup g l.segments else none)))
          ⊎ ((r.1 ≢ none)
              × ((lookup g r.0.segments ≡ lookup g l.segments)
                  ⊎ ((is_kept before l g ≡ false) × (lookup g r.0.segments ≡ none))))
    go r (refused e q) = rw q (inr ((λ n. cc), inl refl))
    go r (stopped e q) = rw q (inr ((λ n. cc), stopped_lem removed before l g v))
    go r (done h e kept k q) = rw q (inl (refl, rw k (done_lem removed before l g e)))

-- The segments that are left are those that were there, and the active one is.
module _ (removed : ℕ → Option Error) (before : Cursor) (l : Log) (v : IsLog l) where
  kept_segments : List (ℕ × Segment)
  kept_segments = (prune_segments removed before.generation l.generation l.segments).0

  kept_lookup :
      (g : ℕ) (s : Segment) → lookup g kept_segments ≡ some s → lookup g l.segments ≡ some s
  unfolding kept_segments
  kept_lookup g s e =
      ground
        (arith, lookup-prune_some removed before.generation l.generation l.segments g v.distinct)

  abbrev kept_log : ℕ → List SizeMark → Log
  kept_log n marks = record l {
    segments = kept_segments;
    linked = still_linked kept_segments l.segments l.linked;
    changed = n;
    sizes = marks;
  }

  kept_linked :
      (g : ℕ) (s : Segment)
      → lookup g kept_segments ≡ some s
      → still_linked kept_segments l.segments l.linked g ≡ true
  kept_linked g s e = rw (e, v.in_directory g s (kept_lookup g s e)) refl

  kept_active : lookup l.generation kept_segments ≡ lookup l.generation l.segments
  unfolding kept_segments
  kept_active =
      lookup-prune_kept removed before.generation l.generation l.segments l.generation
        (ground arith)

  kept-IsLog : (n : ℕ) (marks : List SizeMark) → IsLog (kept_log n marks)
  kept-IsLog n marks = record {
    numbered = v.numbered;
    present = rw kept_active v.present;
    keys = (λ g s e. v.keys g s (kept_lookup g s e));
    distinct =
        unfold kept_segments in
        IsDistinct-prune removed before.generation l.generation l.segments v.distinct;
    in_directory = kept_linked;
    completed = (λ g s e n. v.completed g s (kept_lookup g s e) n);
    whole = (λ c. rw kept_active (v.whole c));
    written = rw kept_active v.written;
    small = rw kept_active v.small;
    fatal = v.fatal;
  }

  kept_contents :
      (n : ℕ) (marks : List SizeMark) (g : ℕ) → contents (kept_log n marks) g ≡ contents l g
  unfolding contents
  kept_contents n marks g = rw kept_active refl

-- Whatever the file system answers, a prune keeps the log well formed, and takes nothing from
-- the stream of any position: a reader that has its files open loses no byte of it.
pub prune-Extends :
    (removed : ℕ → Option Error) (before c : Cursor) (l : Log)
    → IsLog l
    → IsPosition l c
    → IsLog (prune removed before l).0 × Extends l c [] (prune removed before l).0
unfolding signal kept_segments
prune-Extends removed before c l v p = go (prune removed before l) (prune_cases removed before l)
  where
    both :
        (n : ℕ) (marks : List SizeMark)
        → IsLog (kept_log removed before l v n marks)
          × Extends l c [] (kept_log removed before l v n marks)
    both n marks = (
      kept-IsLog removed before l v n marks,
      Extends-same l v c p _ refl (kept_contents removed before l v n marks),
    )

    go : (r : Log × Option Error) → Pruned removed before l r → IsLog r.0 × Extends l c [] r.0
    go r (refused e q) = rw q (v, Extends-same l v c p l refl (λ g. refl))
    go r (stopped e q) = rw q (both l.changed l.sizes)
    go r (done h e kept k q) = rw (q, k) (both _ _)
