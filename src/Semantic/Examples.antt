-- ===== src/Semantic/Examples.antt =====
-- Runs of the marker scan.
use ghostline.Prelude.{◌≡◌, true, false, List, [], ◌∷◌, ◌++◌, Bytes, length, some, refl}
use ghostline.Text.Decimal.{parse_uint, parse_from}
use ghostline.Semantic.{Span, exit_digits, parse_osc133_exit, parse_osc133_at, find_osc133}
use ghostline.Text.Search.{index}
use ghostline.Semantic.Exit.{parse_osc133_exit_exact}
use ghostline.Semantic.Find.{Ascending, find_osc133_total}
use ghostline.Semantic.Marker.{Marker, encode, expected, parse_osc133_at-encode}

abbrev digits : Bytes
digits = b'1' ∷ b'3' ∷ b'0' ∷ []

abbrev completed : Marker
completed = record { letter = b'D'; payload = b';' ∷ digits; by_bell = false }

abbrev chunk : Bytes
chunk = b'x' ∷ encode completed ++ (b'y' ∷ [])

parse_osc133_exit_exact_example :
    parse_osc133_exit (b';' ∷ digits ++ (b';' ∷ b'a' ∷ [])) ≡ (130, true)
unfolding parse_uint parse_from
parse_osc133_exit_exact_example =
    parse_osc133_exit_exact digits (b';' ∷ b'a' ∷ []) (refl, (refl, (refl, tt))) refl

find_osc133_total_example :
    (spans : List Span) × (find_osc133 chunk ≡ some spans) × Ascending (length chunk) 0 spans
find_osc133_total_example = find_osc133_total chunk

parse_osc133_at-encode_example :
    parse_osc133_at ((b'x' ∷ []) ++ (encode completed ++ (b'y' ∷ []))) 1
    ≡ (expected completed 14, true)
parse_osc133_at-encode_example =
    parse_osc133_at-encode (b'x' ∷ []) (b'y' ∷ []) completed
      ((refl, (refl, (refl, (refl, tt)))), (refl, (refl, (refl, (refl, tt)))))

-- The scan finds the marker, with its status.
find_chunk : find_osc133 chunk ≡ some (expected completed 14 ∷ [])
unfolding find_osc133 parse_osc133_exit exit_digits index
find_chunk = refl
