-- ===== src/Semantic/Marker.antt =====
-- A complete marker is read back, wherever it stands in the output.
use ghostline.Prelude.{
  ℕ, suc, ◌+◌, ◌-◌, ◌≡◌, refl, Bool, true, false, [], ◌∷◌, arith, Bytes, length, ◌++◌, ap, ◌∙◌,
  some, ◌==◌, if◌then◌else◌, get_elem?, take, drop, append_assoc, drop-append_length,
  get_elem?-append_length, take-append_length, length-append,
}
use ghostline.Text.Split.{Avoids}
use ghostline.Semantic.{Span, scan, finish, parse_osc133_at, parse_osc133_exit, osc133_prefix}

-- What a shell writes: the marker's letter, its payload, and BEL or ESC \.
pub record Marker : Type 0 where
  pub letter : ℕ
  pub payload : Bytes
  pub by_bell : Bool

abbrev pub terminator : Bool → Bytes
terminator true = 7 ∷ []
terminator false = 27 ∷ b'\\' ∷ []

abbrev pub encode : Marker → Bytes
encode m = osc133_prefix ++ (m.letter ∷ (m.payload ++ terminator m.by_bell))

abbrev pub IsMarker : Marker → Type 0
IsMarker m = Avoids 7 m.payload × Avoids 27 m.payload

-- The span that a marker should give, if it ends at `end`.
abbrev pub expected : Marker → ℕ → Span
expected m end =
    let exit = if m.letter == b'D' then parse_osc133_exit m.payload else (0, false) in
    record { kind = m.letter; exit_code = exit.0; has_exit = exit.1; end = end }

scan-payload :
    (data' : Bytes) (kind body i : ℕ) (by_bell : Bool) (payload after : Bytes)
    → Avoids 7 payload
    → Avoids 27 payload
    → scan data' kind body i (payload ++ terminator by_bell ++ after) ≡ (
      finish data' kind body
          (i + length payload)
          (i + length payload + length (terminator by_bell)),
      true,
    )
unfolding scan
scan-payload data' kind body i true [] after a b =
    ap (λ k. (finish data' kind body k (k + 1), true)) (omega arith)
scan-payload data' kind body i false [] after a b =
    ap (λ k. (finish data' kind body k (k + 2), true)) (omega arith)
scan-payload data' kind body i by_bell (c ∷ payload) after a b =
    rw (a.0, b.0)
      (scan-payload data' kind body (suc i) by_bell payload after a.1 b.1
        ∙ ap (λ k. (finish data' kind body k (k + length (terminator by_bell)), true))
            (omega arith))

finish-payload :
    (data' : Bytes) (m : Marker) (body i end : ℕ)
    → take (i - suc body) (drop (suc body) data') ≡ m.payload
    → finish data' m.letter body i end ≡ expected m end
unfolding finish
finish-payload data' m body i end e = rw e (ground arith)

behind_letter :
    (before after : Bytes) (m : Marker)
    → drop (suc (length before + 6)) (before ++ (encode m ++ after))
      ≡ m.payload ++ terminator m.by_bell ++ after
behind_letter before after m =
    ap (λ k. drop k (before ++ (encode m ++ after))) {x = suc (length before + 6)}
      {y = length before + 7} (omega arith)
    ∙ drop-append_length before (encode m ++ after) 7

parse_osc133_at_found :
    (data' : Bytes) (start : ℕ) {kind : ℕ}
    → get_elem? data' (start + 6) ≡ some kind
    → parse_osc133_at data' start
      ≡ scan data' kind (start + 6) (suc (start + 6)) (drop (suc (start + 6)) data')
unfolding parse_osc133_at
parse_osc133_at_found data' start e = rw (e, parse_osc133_at) refl

take-append_payload :
    (payload end after : Bytes) → take (length payload) (payload ++ end ++ after) ≡ payload
take-append_payload payload end after =
    ap (take (length payload)) (append_assoc payload end after)
    ∙ take-append_length payload (end ++ after)

-- Wherever a complete marker stands whose payload holds neither BEL nor ESC, the parse at its
-- first byte reports its letter, the status in its payload if it is a D, and the position
-- behind its terminator.
pub parse_osc133_at-encode :
    (before after : Bytes) (m : Marker)
    → IsMarker m
    → parse_osc133_at (before ++ (encode m ++ after)) (length before)
      ≡ (expected m (length before + length (encode m)), true)
parse_osc133_at-encode before after m h =
    let data' = before ++ (encode m ++ after) in
    let body = length before + 6 in
    let end = suc body + length m.payload + length (terminator m.by_bell) in
    parse_osc133_at_found data' (length before)
      (get_elem?-append_length before (encode m ++ after) 6)
    ∙ ap (scan data' m.letter body (suc body)) (behind_letter before after m)
    ∙ (scan-payload data' m.letter body (suc body) m.by_bell m.payload after h.0 h.1
        ∙ ap (λ span. (span, true))
            {x = finish data' m.letter body (suc body + length m.payload) end}
            (finish-payload data' m body (suc body + length m.payload) end (
                ap (λ k. take k (drop (suc body) data'))
                  {x = suc body + length m.payload - suc body} {y = length m.payload} (omega arith)
                ∙ ap (take (length m.payload)) (behind_letter before after m)
                ∙ take-append_payload m.payload (terminator m.by_bell) after)
              ∙ ap (expected m) {x = end} {y = length before + length (encode m)}
                  (omega (arith, length-append m.payload (terminator m.by_bell)))))
