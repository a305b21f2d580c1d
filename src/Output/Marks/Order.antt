-- ===== src/Output/Marks/Order.antt =====
-- The order of cursors, marks in that order, and the size that is in effect at a cursor.
use ghostline.Prelude.{◌<◌, ◌≡◌, ◌⊎◌, ◌&&◌, List, [], ◌∷◌, leb, ◌==◌, if◌then◌else◌, arith, refl}
use ghostline.Size.{Size, zero_size}
use ghostline.Output.Cursor.{Cursor}
use ghostline.Output.Log.{SizeMark}

abbrev pub Before : Cursor → Cursor → Type 0
Before c d = (c.generation < d.generation) ⊎ ((c.generation ≡ d.generation) × (c.offset < d.offset))

abbrev pub AllAfter : Cursor → List SizeMark → Type 0
AllAfter c [] = Unit {0}
AllAfter c (mark ∷ marks) = Before c mark.cursor × AllAfter c marks

-- Later marks stand at later cursors.
abbrev pub IsOrdered : List SizeMark → Type 0
IsOrdered [] = Unit {0}
IsOrdered (mark ∷ marks) = AllAfter mark.cursor marks × IsOrdered marks

-- The last of the marks that stand in the cursor's generation, at the cursor or before it.
unfoldable pub size_from : Size → List SizeMark → Cursor → Size
size_from size [] c = size
size_from size (mark ∷ marks) c =
    size_from
      (if (mark.cursor.generation == c.generation) && leb mark.cursor.offset c.offset
        then mark.size
        else size)
      marks c

-- The grid size that output at a cursor was produced for: what the marks mean.
unfoldable pub size_at : List SizeMark → Cursor → Size
unfolding size_from
size_at = size_from zero_size

pub Before-trans : (a b c : Cursor) → Before a b → Before b c → Before a c
Before-trans a b c p q = ground arith

pub AllAfter-Before :
    (a b : Cursor) (marks : List SizeMark) → Before a b → AllAfter b marks → AllAfter a marks
AllAfter-Before a b [] p h = tt
AllAfter-Before a b (m ∷ marks) p h =
    (Before-trans a b m.cursor p h.0, AllAfter-Before a b marks p h.1)

-- Marks behind a cursor do not count at it.
pub size_from_after :
    (size : Size) (marks : List SizeMark) (c : Cursor)
    → AllAfter c marks
    → size_from size marks c ≡ size
unfolding size_from
size_from_after size [] c h = refl
size_from_after size (m ∷ marks) c h = ground (arith, size_from_after size marks c)
