-- ===== src/Output/Log/Serving.antt =====
-- output.go: what a log serves after `prune` has removed segments.
use ghostline.Prelude.{
  ℕ, ◌≤◌, ◌<◌, ◌≡◌, ◌≢◌, ◌⊎◌, inl, inr, refl, ◌∙◌, ap, Bool, true, false, Option, none, List,
  is_some, arith, append-nil,
}
use ghostline.Prelude.Maps.{lookup}
use ghostline.Errors.{Error}
use ghostline.Output.Cursor.{Cursor, zero_cursor, cursor_eq_iff}
use ghostline.Output.Log.{
  Log, Segment, prune, prune_segments, still_linked, resolve_cursor, resolve_in, signal,
}
use ghostline.Output.Log.Invariant.{IsLog}
use ghostline.Output.Log.Stream.{IsPosition, stream}
use ghostline.Output.Log.Retention.{
  is_kept, Pruned, refused, stopped, done, prune_cases, prune-Extends, lookup-prune_kept,
  lookup-prune_gone,
}

-- A position resolves by the entry of its own generation.
resolve_same :
    (l l' : Log) (c : Cursor)
    → 0 < c.generation
    → l'.generation ≡ l.generation
    → lookup c.generation l'.segments ≡ lookup c.generation l.segments
    → resolve_cursor l' c ≡ resolve_cursor l c
unfolding resolve_cursor resolve_in
resolve_same l l' c h e q = ground (arith, cursor_eq_iff c zero_cursor, e, q)

-- A generation with its file is as it was.
abbrev pub IsUntouched : ℕ → Log → Log → Type 0
IsUntouched g l l' = (lookup g l'.segments ≡ lookup g l.segments) × (l'.linked g ≡ l.linked g)

-- A generation has left the index, and its file the directory.
abbrev pub IsRemoved : ℕ → Log → Type 0
IsRemoved g l = (lookup g l.segments ≡ none) × (l.linked g ≡ false)

still_linked-same :
    (kept segments : List (ℕ × Segment)) (linked : ℕ → Bool) (g : ℕ)
    → lookup g kept ≡ lookup g segments
    → still_linked kept segments linked g ≡ linked g
still_linked-same kept segments linked g e = ground (arith, e)

still_linked-gone :
    (kept segments : List (ℕ × Segment)) (linked : ℕ → Bool) (g : ℕ)
    → lookup g kept ≡ none
    → is_some (lookup g segments) ≡ true
    → still_linked kept segments linked g ≡ false
still_linked-gone kept segments linked g e h = ground (arith, e, h)

module _ (removed : ℕ → Option Error) (before : Cursor) (l : Log) where
  untouched_lem :
      (g : ℕ) (r : Log × Option Error)
      → is_kept before l g ≡ true
      → Pruned removed before l r
      → IsUntouched g l r.0
  unfolding signal
  untouched_lem g r k (refused e q) = rw q (refl, refl)
  untouched_lem g r k (stopped e q) =
      let kept = (prune_segments removed before.generation l.generation l.segments).0 in
      let same = lookup-prune_kept removed before.generation l.generation l.segments g k in
      rw q (same, still_linked-same kept l.segments l.linked g same)
  untouched_lem g r k (done h e kept p q) =
      let same : lookup g kept ≡ lookup g l.segments =
        ap (lookup g) p ∙ lookup-prune_kept removed before.generation l.generation l.segments g k in
      rw q (same, still_linked-same kept l.segments l.linked g same)

  removed_lem :
      (g : ℕ) (r : Log × Option Error)
      → is_kept before l g ≡ false
      → is_some (lookup g l.segments) ≡ true
      → Pruned removed before l r
      → (r.1 ≢ none) ⊎ IsRemoved g r.0
  unfolding signal
  removed_lem g r k i (refused e q) = rw q (inl (λ n. cc))
  removed_lem g r k i (stopped e q) = rw q (inl (λ n. cc))
  removed_lem g r k i (done h e kept p q) =
      let gone : lookup g kept ≡ none =
        ap (lookup g) p
        ∙ lookup-prune_gone removed before.generation l.generation l.segments g e k in
      rw q (inr (gone, still_linked-gone kept l.segments l.linked g gone i))

  same_generation :
      (r : Log × Option Error) → Pruned removed before l r → r.0.generation ≡ l.generation
  unfolding signal
  same_generation r (refused e q) = rw q refl
  same_generation r (stopped e q) = rw q refl
  same_generation r (done h e kept p q) = rw q refl

  from_on :
      (c : Cursor) (g : ℕ)
      → is_kept before l c.generation ≡ true
      → c.generation ≤ g
      → g ≤ l.generation
      → is_kept before l g ≡ true
  from_on c g k h h' = ground (arith, k)

  -- For a position whose generation is not to go, a generation g from its own to the active one,
  -- and an indexed generation old that is to go: whatever the file system answers, a prune keeps
  -- the log well formed, the position resolves as before, what it has to read is the same, and
  -- the generation g is in the index, and its file in the directory, just if it was before; and
  -- if the prune succeeds, old is no longer in the index nor its file in the directory.
  pub prune-serves :
      (c : Cursor) (g old : ℕ)
      → IsLog l
      → IsPosition l c
      → is_kept before l c.generation ≡ true
      → c.generation ≤ g
      → g ≤ l.generation
      → is_kept before l old ≡ false
      → is_some (lookup old l.segments) ≡ true
      → let (l', e) = prune removed before l in
        IsLog l'
        × (resolve_cursor l' c ≡ resolve_cursor l c)
        × (stream l' c ≡ stream l c)
        × IsUntouched g l l'
        × ((e ≢ none) ⊎ IsRemoved old l')
  prune-serves c g old v p k h h' u i =
      let cases = prune_cases removed before l in
      let r = prune removed before l in
      let (w, (_, x)) = prune-Extends removed before c l v p in
      (
        w,
        resolve_same l r.0 c p.0 (same_generation r cases) (untouched_lem c.generation r k cases).0,
        x ∙ append-nil (stream l c),
        untouched_lem g r (from_on c g k h h') cases,
        removed_lem old r u i cases,
      )
