-- ===== src/Output/Marks/Examples.antt =====
-- Tests and witnesses for the size marks.
use ghostline.Prelude.{◌≡◌, refl, inr, arith}
use ghostline.Prelude.Int.{pos}
use ghostline.Prelude.Maps.{lookup}
use ghostline.Size.{Size}
use ghostline.Output.Log.{end_cursor}
use ghostline.Output.Log.Examples.{two_segments, at'}
use ghostline.Output.Marks.{mark_size}
use ghostline.Output.Marks.Order.{size_at}
use ghostline.Output.Marks.Updates.{MarksTo, mark_size-size_at}

abbrev narrow : Size
narrow = record { columns = pos 80; rows = pos 24 }

end_of_two : end_cursor two_segments ≡ at' 2 1
unfolding end_cursor lookup
end_of_two = refl

mark_size-size_at_example :
    MarksTo (end_cursor two_segments) (mark_size narrow two_segments).sizes
    × (size_at (mark_size narrow two_segments).sizes (end_cursor two_segments) ≡ narrow)
    × (size_at (mark_size narrow two_segments).sizes (at' 2 0)
        ≡ size_at two_segments.sizes (at' 2 0))
mark_size-size_at_example =
    mark_size-size_at narrow (at' 2 0) two_segments refl (rw end_of_two (omega arith))
      (rw end_of_two (inr (refl, omega arith)))
