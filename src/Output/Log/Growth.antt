-- ===== src/Output/Log/Growth.antt =====
-- `append`, `rotate` and `markSize` against the view of a log as a stream of bytes.
use ghostline.Prelude.{
  ℕ, ◌+◌, ◌≤◌, ◌≡◌, ◌≢◌, ◌⊎◌, inl, inr, refl, ap, subst, fun_ext, sym, ◌∙◌, false, Option, none,
  List, [], ◌++◌, Bytes, ◌==◌, length, take, arith, Bool-cases, append-nil, take_all, take-append,
  length-append, ==_refl,
}
use ghostline.Errors.{Error}
use ghostline.Output.Cursor.{Cursor, max_int64}
use ghostline.Output.Log.{
  Log, WriteAnswer, active_segment, signal, fail, append, grow, write_active, publish,
}
use ghostline.Output.Log.Invariant.{IsLog, signal-IsLog, grow_write-IsLog}
use ghostline.Output.Log.Append.{
  Appended, nothing, refused, recorded, failed, append_cases, failed_lem,
}
use ghostline.Output.Log.Stream.{
  contents, stream_of, stream, IsPosition, stream_of-more, stream_of-next,
}

pub contents_active :
    (l : Log) → contents l l.generation ≡ take (active_segment l).size (l.files l.generation)
unfolding contents
contents_active l = rw (==_refl l.generation)

-- While a log is open its active generation is its whole file.
pub contents_open : (l : Log) → IsLog l → l.closed ≡ false → (g : ℕ) → contents l g ≡ l.files g
unfolding contents
contents_open l v o g = elim (Bool-cases (g == l.generation)) [
  | inl q ↦
      let e : g ≡ l.generation = ground arith in
      rw (e, ==_refl l.generation)
        (take_all (active_segment l).size (l.files l.generation) (omega (arith, v.whole o)))
  | inr q ↦ ground arith
]

-- The contents after a write that succeeds, one that fails, and a new generation.
module _ (l : Log) (v : IsLog l) where
  contents-grow_ne :
      (data' : Bytes) (g : ℕ)
      → g ≢ l.generation
      → contents (signal (grow (length data') (write_active data' l))) g ≡ contents l g
  unfolding contents signal grow write_active
  contents-grow_ne data' g n = ground arith

  grow_files :
      (data' : Bytes)
      → (signal (grow (length data') (write_active data' l))).files l.generation
        ≡ l.files l.generation ++ data'
  unfolding grow write_active signal
  grow_files data' = rw (==_refl l.generation)

  grow_open :
      (data' : Bytes)
      → l.closed ≡ false
      → (signal (grow (length data') (write_active data' l))).closed ≡ false
  unfolding grow write_active signal
  grow_open data' o = o

  contents-grow :
      (data' : Bytes)
      → l.closed ≡ false
      → (active_segment l).size + length data' ≤ max_int64
      → contents (signal (grow (length data') (write_active data' l))) l.generation
        ≡ contents l l.generation ++ data'
  contents-grow data' o h =
      let g = signal (grow (length data') (write_active data' l)) in
      contents_open g (signal-IsLog _ (grow_write-IsLog data' l o h v)) (grow_open data' o)
        l.generation
      ∙ grow_files data'
      ∙ ap (λ w. w ++ data') (sym (contents_open l v o l.generation))

  contents-fail :
      (e : Error) (written : Bytes) (g : ℕ)
      → contents (fail e (write_active written l)) g ≡ contents l g
  unfolding contents fail signal write_active
  contents-fail e written g = elim (Bool-cases (g == l.generation)) [
    | inl q ↦
        let p : g ≡ l.generation = ground arith in
        rw (p, ==_refl l.generation)
          (take-append (active_segment l).size (l.files l.generation) written v.written)
    | inr q ↦ ground arith
  ]

  publish_files : (g : ℕ) → g ≤ l.generation → contents (publish (l.generation + 1) l) g ≡ l.files g
  unfolding contents publish signal
  publish_files g h = ground arith

  contents-publish_le :
      l.closed ≡ false
      → (g : ℕ) → g ≤ l.generation
      → contents (publish (l.generation + 1) l) g ≡ contents l g
  contents-publish_le o g h = publish_files g h ∙ sym (contents_open l v o g)

  contents-publish : contents (publish (l.generation + 1) l) (l.generation + 1) ≡ []
  unfolding contents publish signal
  contents-publish =
      rw (==_refl (l.generation + 1))
        (take_all (active_segment (publish (l.generation + 1) l)).size [] (omega arith))

-- What an append adds to every stream: all of the data, or on an error nothing.
abbrev pub Extends : Log → Cursor → Bytes → Log → Type 0
Extends l c extra l' = IsPosition l' c × (stream l' c ≡ stream l c ++ extra)

module _ (l : Log) (v : IsLog l) (c : Cursor) (p : IsPosition l c) where
  pub Extends-same :
      (l' : Log)
      → l'.generation ≡ l.generation
      → ((g : ℕ) → contents l' g ≡ contents l g)
      → Extends l c [] l'
  Extends-same l' q same = (
    (p.0, rw q p.1, rw (same c.generation) p.2),
    subst (λ n. stream_of (contents l') n c ≡ stream l c ++ []) (sym q)
        (ap (λ f. stream_of f l.generation c) (fun_ext same) ∙ sym (append-nil _)),
  )

  contents-grow_le :
      (data' : Bytes)
      → l.closed ≡ false
      → (active_segment l).size + length data' ≤ max_int64
      → c.offset
        ≤ length (contents (signal (grow (length data') (write_active data' l))) c.generation)
  contents-grow_le data' o h = elim (Bool-cases (c.generation == l.generation)) [
    | inl q ↦
        let e : c.generation ≡ l.generation = ground arith in
        let k = p.2 in
        subst
          (λ g.
            c.offset ≤ length (contents l g)
            → c.offset ≤ length (contents (signal (grow (length data') (write_active data' l))) g))
          (sym e)
          (λ k.
            rw (contents-grow l v data' o h, length-append (contents l l.generation) data')
              (omega arith))
          k
    | inr q ↦ rw (contents-grow_ne l v data' c.generation (ground arith)) p.2
  ]

  Extends-grow :
      (data' : Bytes)
      → l.closed ≡ false
      → (active_segment l).size + length data' ≤ max_int64
      → Extends l c data' (signal (grow (length data') (write_active data' l)))
  unfolding signal grow write_active
  Extends-grow data' o h = (
    (p.0, p.1, contents-grow_le data' o h),
    stream_of-more (contents l) _ l.generation data' (λ g n. contents-grow_ne l v data' g n)
        (contents-grow l v data' o h) c p.1 p.2,
  )

  pub Extends-publish : l.closed ≡ false → Extends l c [] (publish (l.generation + 1) l)
  unfolding publish signal
  Extends-publish o = (
    (p.0, omega (arith, p.1), rw (contents-publish_le l v o c.generation p.1) p.2),
    stream_of-next (contents l) _ l.generation (contents-publish_le l v o) (contents-publish l v) c
          p.1
        ∙ sym (append-nil _),
  )

-- While the segment fits a signed 64-bit size, the stream at any position of a well-formed log
-- grows by exactly the data of an append that succeeds, and does not change when the append
-- fails.
pub stream-append :
    (answers : List WriteAnswer) (data' : Bytes) (l : Log) (c : Cursor)
    → (active_segment l).size + length data' ≤ max_int64
    → IsLog l
    → IsPosition l c
    → let (l', e) = append answers data' l in
      ((e ≡ none) × Extends l c data' l') ⊎ ((e ≢ none) × Extends l c [] l')
stream-append answers data' l c h v p = go (append answers data' l) (append_cases answers data' l)
  where
    same : Extends l c [] l
    same = Extends-same l v c p l refl (λ g. refl)

    go :
        (r : Log × Option Error)
        → Appended data' l r
        → ((r.1 ≡ none) × Extends l c data' r.0) ⊎ ((r.1 ≢ none) × Extends l c [] r.0)
    go r (nothing z q) = rw (q, z) (inl (refl, same))
    go r (refused _ q) = rw q (inr ((λ n. cc), same))
    go r (recorded o q) = rw q (inl (refl, Extends-grow l v c p data' o h))
    go r (failed _ written e q) = rw q (
        inr (
          (failed_lem e written l).0,
          Extends-same l v c p _ (failed_lem e written l).3 (contents-fail l v e written),
        ))
