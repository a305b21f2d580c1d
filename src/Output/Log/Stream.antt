-- ===== src/Output/Log/Stream.antt =====
-- The abstract view of a log: for a cursor, the bytes that a reader from there has yet to see.
-- It forgets how the bytes are cut into segments.
use ghostline.Prelude.{
  ℕ, zero, suc, ◌+◌, ◌-◌, ◌≤◌, ◌<◌, ◌≡◌, ◌≢◌, refl, ap, sym, ◌∙◌, [], ◌++◌, Bytes, ◌==◌,
  if◌then◌else◌, length, take, drop, arith, append_assoc, append-nil, drop-append,
}
use ghostline.Output.Cursor.{Cursor}
use ghostline.Output.Log.{Log, active_segment}

-- What a generation holds: its file, and of the active one as much as its recorded size.
unfoldable pub contents : Log → ℕ → Bytes
contents l g = if g == l.generation then take (active_segment l).size (l.files g) else l.files g

-- n generations from g on.
unfoldable pub joined : (ℕ → Bytes) → ℕ → ℕ → Bytes
joined file g zero = []
joined file g (suc n) = file g ++ joined file (g + 1) n

unfoldable pub stream_of : (ℕ → Bytes) → ℕ → Cursor → Bytes
stream_of file last c =
    drop c.offset (file c.generation) ++ joined file (c.generation + 1) (last - c.generation)

abbrev pub stream : Log → Cursor → Bytes
stream l c = stream_of (contents l) l.generation c

-- A position that the log has: within the contents of a generation up to the active one.
abbrev pub IsPosition : Log → Cursor → Type 0
IsPosition l c =
    (0 < c.generation)
    × (c.generation ≤ l.generation)
    × (c.offset ≤ length (contents l c.generation))

-- The last of the joined generations grows by `extra`, and the others stay.
module _ (old new : ℕ → Bytes) (last : ℕ) (extra : Bytes)
    (same : (g : ℕ) → g ≢ last → new g ≡ old g) (more : new last ≡ old last ++ extra) where
  joined-more : (n g : ℕ) → g + n ≡ last → joined new g (suc n) ≡ joined old g (suc n) ++ extra
  unfolding joined
  joined-more zero g e =
      let q : g ≡ last = omega arith in
      rw q (append-nil _ ∙ more ∙ ap (λ w. w ++ extra) (sym (append-nil (old last))))
  joined-more (suc n) g e =
      rw (same g (omega arith)) (
        ap (◌++◌ (old g)) (joined-more n (g + 1) (omega arith))
        ∙ sym (append_assoc (old g) _ extra))

  stream-more :
      (n : ℕ) (c : Cursor)
      → c.generation + n ≡ last
      → c.offset ≤ length (old c.generation)
      → drop c.offset (new c.generation) ++ joined new (c.generation + 1) n
        ≡ (drop c.offset (old c.generation) ++ joined old (c.generation + 1) n) ++ extra
  stream-more zero c e k =
      let q : c.generation ≡ last = omega arith in
      ap (λ w. drop c.offset w ++ joined new (c.generation + 1) 0)
        (ap new q ∙ more ∙ ap (λ g. old g ++ extra) (sym q))
      ∙ ap (λ w. w ++ joined new (c.generation + 1) 0)
          (drop-append c.offset (old c.generation) extra k)
      ∙ unfold joined in
        (append-nil _ ∙ ap (λ w. w ++ extra) (sym (append-nil (drop c.offset (old c.generation)))))
  stream-more (suc n) c e k = rw (same c.generation (omega arith)) (
      ap (◌++◌ (drop c.offset (old c.generation))) (joined-more n (c.generation + 1) (omega arith))
      ∙ sym (append_assoc (drop c.offset (old c.generation)) _ extra))

  pub stream_of-more :
      (c : Cursor)
      → c.generation ≤ last
      → c.offset ≤ length (old c.generation)
      → stream_of new last c ≡ stream_of old last c ++ extra
  unfolding stream_of
  stream_of-more c h k = stream-more (last - c.generation) c (omega arith) k

-- An empty new generation at the end adds nothing.
module _ (old new : ℕ → Bytes) (last : ℕ) (same : (g : ℕ) → g ≤ last → new g ≡ old g)
    (empty : new (last + 1) ≡ []) where
  joined-next : (n g : ℕ) → g + n ≡ last + 1 → joined new g (suc n) ≡ joined old g n
  unfolding joined
  joined-next zero g e = let q : g ≡ last + 1 = omega arith in rw (q, empty) refl
  joined-next (suc n) g e =
      rw (same g (omega arith)) (ap (◌++◌ (old g)) (joined-next n (g + 1) (omega arith)))

  pub stream_of-next :
      (c : Cursor) → c.generation ≤ last → stream_of new (last + 1) c ≡ stream_of old last c
  unfolding stream_of
  stream_of-next c h =
      let q : last + 1 - c.generation ≡ suc (last - c.generation) = omega arith in
      rw (q, same c.generation h)
        (ap (◌++◌ (drop c.offset (old c.generation)))
          (joined-next (last - c.generation) (c.generation + 1) (omega arith)))
