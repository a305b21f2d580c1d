-- ===== src/Query/Lost.antt =====
-- query.go: an OSC query whose terminator is split is dropped.
use ghostline.Prelude.{
  ℕ, suc, ◌+◌, ◌≤◌, ◌≡◌, refl, ap, ◌∙◌, [], ◌∷◌, ◌++◌, Bytes, length, arith, none, some,
}
use ghostline.Text.Search.{index_byte}
use ghostline.Query.{
  broken, osc_end, escape, feed_osc, feed_escape, feed_pass, QueryResponder, with_pending,
}
use ghostline.Query.Color.{answer_all}
use ghostline.Query.Passes.{feed_pass-skip}
use ghostline.Query.Feed.{Runs, stops, goes, feed-Runs, feed_twice}

-- No control character stands in the text.
abbrev pub IsPlainText : Bytes → Type 0
IsPlainText [] = Unit {0}
IsPlainText (c ∷ text) = (32 ≤ c) × IsPlainText text

osc_end-escape :
    (text : Bytes) (i : ℕ)
    → IsPlainText text
    → osc_end (text ++ (escape ∷ [])) i ≡ broken (i + length text)
unfolding osc_end
osc_end-escape [] i h = ap broken (omega arith)
osc_end-escape (c ∷ []) i h = ground (arith, osc_end-escape [] (suc i) tt)
osc_end-escape (c ∷ d ∷ text) i h = ground (arith, osc_end-escape (d ∷ text) (suc i) h.1)

index_byte-plain : (text : Bytes) → IsPlainText text → index_byte text escape ≡ none
unfolding index_byte
index_byte-plain [] h = refl
index_byte-plain (c ∷ text) h = ground (arith, index_byte-plain text h.1)

abbrev pub osc_open : Bytes → Bytes
osc_open text = escape ∷ b']' ∷ text ++ (escape ∷ [])

osc_open-Runs :
    (r : QueryResponder) (text : Bytes) → IsPlainText text → Runs r (osc_open text) (escape ∷ []) []
unfolding feed_pass index_byte feed_escape feed_osc
osc_open-Runs r text h =
    goes {left = b']' ∷ text ++ (escape ∷ [])} {reply = none}
      (rw (osc_end-escape text 0 h, feed_pass, feed_escape, feed_osc) refl)
      (stops (
        feed_pass-skip r (b']' ∷ text) (escape ∷ [])
          (index_byte-plain (b']' ∷ text) (omega arith, h))
        ∙ refl))

backslash-Runs : (r : QueryResponder) → Runs r (escape ∷ b'\\' ∷ []) [] []
unfolding feed_pass feed_escape index_byte
backslash-Runs r =
    goes {left = b'\\' ∷ []} {reply = none} refl (stops (feed_pass-skip r (b'\\' ∷ []) [] refl))

-- Where the buffer is empty and the first chunk is an OSC sequence alone that ends between the
-- two bytes of its terminator, the call and the one with the other byte give no reply, whatever
-- the sequence asks for, and leave an empty buffer.
pub feed_lost :
    (r : QueryResponder) (text : Bytes)
    → IsPlainText text
    → feed_twice (with_pending r []) (osc_open text) (b'\\' ∷ []) ≡ some (with_pending r [], [])
unfolding answer_all
feed_lost r text h =
    let between = with_pending r (escape ∷ []) in
    rw
      (
        feed-Runs (with_pending r []) (osc_open text) (osc_open-Runs (with_pending r []) text h),
        feed-Runs between (b'\\' ∷ []) (backslash-Runs between),
        feed_twice,
      )
      refl
