-- ===== src/Output/Cursor/Distance.antt =====
-- What `Distance` measures.
use ghostline.Prelude.{ℕ, ◌+◌, ◌≡◌, ◌≢◌, ◌↔◌, some, arith}
use ghostline.Output.Cursor.{Cursor, distance}

-- The cursor `n` bytes further on in the same generation.
abbrev pub advance : Cursor → ℕ → Cursor
advance c n = record c { offset = c.offset + n }

-- A distance is defined exactly where the target is the cursor moved forward by it within one
-- generation that is not zero; otherwise it is unknown.
pub distance_exact :
    (c to : Cursor) (n : ℕ) → (distance c to ≡ some n) ↔ ((c.generation ≢ 0) × (to ≡ advance c n))
unfolding distance
distance_exact c to n = ground arith

-- Distances add up along a generation, so a reader may split the way to its target at any
-- cursor in between.
pub distance_add :
    (a b c : Cursor) (m n : ℕ)
    → distance a b ≡ some m
    → distance b c ≡ some n
    → distance a c ≡ some (m + n)
unfolding distance
distance_add a b c m n p q = ground arith
