-- ===== src/Output/Open/Examples.antt =====
-- output.go: a directory with two segments, a later one, and another file.
use ghostline.Prelude.{ℕ, ◌<◌, ◌≤◌, refl, false, List, [], ◌∷◌, Bytes}
use ghostline.Prelude.Maps.{lookup, put}
use ghostline.Errors.{ok}
use ghostline.Text.Decimal.{parse_uint, parse_from}
use ghostline.Text.Search.{has_prefix}
use ghostline.Output.Open.{DirEntry, entry_number, index_entries, index_entries-le}

abbrev file : Bytes → ℕ → DirEntry
file name size = record { entry_name = name; is_dir = false; entry_size = ok size }

abbrev listing : List DirEntry
listing =
    file (b'1' ∷ b'.' ∷ b'o' ∷ b'u' ∷ b't' ∷ []) 5
    ∷ file (b'9' ∷ b'.' ∷ b'o' ∷ b'u' ∷ b't' ∷ []) 6
    ∷ file (b'n' ∷ b'o' ∷ b't' ∷ b'e' ∷ []) 7
    ∷ []

index_entries-le_test : (0 < 1) × (1 ≤ 2)
unfolding index_entries entry_number has_prefix parse_uint parse_from put lookup
index_entries-le_test = index_entries-le [] 2 1 listing refl refl
