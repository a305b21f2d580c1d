-- ===== src/Output/Log/Rotate.antt =====
-- `rotate` and the size that it carries over.
use ghostline.Prelude.{
  ℕ, ◌+◌, ◌≤◌, ◌<◌, ◌≡◌, ◌⊎◌, inl, inr, refl, false, Option, [], ◌==◌, arith, Bool-cases,
  Option-cases,
}
use ghostline.Errors.{Error, Result, ok, err, failure}
use ghostline.Output.Cursor.{Cursor, max_uint64}
use ghostline.Output.Log.{Log, closed_error, rotate, publish, start_of, end_cursor, signal}
use ghostline.Output.Log.Invariant.{IsLog, lookup-publish, publish-IsLog}
use ghostline.Output.Log.Stream.{IsPosition}
use ghostline.Output.Log.Growth.{Extends, Extends-publish}

pub data Rotated (l : Log) (r : Log × Result Cursor) : Type 0 where
  unchanged : (e : Error) → r ≡ (l, err e) → Rotated l r
  published :
      l.closed ≡ false
      → l.generation < max_uint64
      → r ≡ (publish (l.generation + 1) l, ok (start_of (l.generation + 1)))
      → Rotated l r

pub rotate_cases :
    (created : Option Error) (l : Log) → l.generation ≤ max_uint64 → Rotated l (rotate created l)
unfolding rotate
rotate_cases created l h = elim (Bool-cases l.closed) [
  | inl c ↦ unchanged (closed_error l.err) (ground arith)
  | inr o ↦ elim (Bool-cases (l.generation == max_uint64)) [
    | inl top ↦ unchanged (failure []) (ground arith)
    | inr more ↦ elim (Option-cases created) [
      | inl n ↦ published o (ground arith) (ground arith)
      | inr (e, s) ↦ unchanged e (ground arith)
    ]
  ]
]

end_cursor-publish : (l : Log) (next : ℕ) → end_cursor (publish next l) ≡ start_of next
unfolding end_cursor publish signal
end_cursor-publish l next = ground (arith, lookup-publish l next next)

-- A rotation either fails and leaves the log as it was, or starts the next generation, whose
-- first position it returns and which is then the end of a well-formed log, and no stream
-- changes.
pub rotate_outcome :
    (created : Option Error) (l : Log) (c : Cursor)
    → IsLog l
    → IsPosition l c
    → let (l', result) = rotate created l in
      ((e : Error) × (result ≡ err e) × (l' ≡ l))
      ⊎ ((result ≡ ok (start_of (l.generation + 1)))
          × IsLog l'
          × (end_cursor l' ≡ start_of (l.generation + 1))
          × Extends l c [] l')
rotate_outcome created l c v p = go (rotate created l) (rotate_cases created l v.numbered.1)
  where
    go :
        (r : Log × Result Cursor)
        → Rotated l r
        → ((e : Error) × (r.1 ≡ err e) × (r.0 ≡ l))
          ⊎ ((r.1 ≡ ok (start_of (l.generation + 1)))
              × IsLog r.0
              × (end_cursor r.0 ≡ start_of (l.generation + 1))
              × Extends l c [] r.0)
    go r (unchanged e q) = rw q (inl (e, refl, refl))
    go r (published o m q) = rw q (
        inr (
          refl,
          publish-IsLog l o m v,
          end_cursor-publish l (l.generation + 1),
          Extends-publish l v c p o,
        ))
