-- ===== src/Remote/Kept.antt =====
-- client.go: what is left in a diagnosticBuffer.
use ghostline.Prelude.{
  ℕ, ◌+◌, ◌-◌, ◌≡◌, sym, ◌∙◌, ap, List, [], ◌∷◌, ◌++◌, Bytes, length, drop, leb, inl, inr, arith,
  Bool-cases, length-append, length-drop, drop-append, drop-append_length, drop-drop, append_assoc,
  append-nil,
}
use ghostline.Remote.Diagnostics.{max_daemon_diagnostics, write_diagnostics, write_all}

abbrev pub concat : List Bytes → Bytes
concat [] = []
concat (text ∷ texts) = text ++ concat texts

-- The last n bytes, or all if there are fewer.
abbrev pub last_bytes : ℕ → Bytes → Bytes
last_bytes n text = drop (length text - n) text

write-last_bytes :
    (before text : Bytes)
    → write_diagnostics (last_bytes max_daemon_diagnostics before) text
      ≡ last_bytes max_daemon_diagnostics (before ++ text)
unfolding write_diagnostics
write-last_bytes before text =
    let m = max_daemon_diagnostics in
    let both = length-append before text in
    elim (Bool-cases (leb m (length text))) [
      | inl h ↦ rw h (
          sym (
            ap (λ n. drop n (before ++ text)) {y = length before + (length text - m)}
              (ground (arith, h, both))
            ∙ drop-append_length before text (length text - m)))
      | inr h ↦
          let kept = length-drop (length before - m) before in
          rw h (
            ap (λ w. w ++ text)
              (drop-drop (length before - m) _ before
                ∙ ap (λ n. drop n before) {y = length before + length text - m}
                    (ground (arith, h, kept)))
            ∙ sym (
                ap (λ n. drop n (before ++ text)) {y = length before + length text - m}
                  (ground (arith, both))
                ∙ drop-append (length before + length text - m) before text (ground (arith, h))))
    ]

write_all-last_bytes :
    (before : Bytes) (texts : List Bytes)
    → write_all (last_bytes max_daemon_diagnostics before) texts
      ≡ last_bytes max_daemon_diagnostics (before ++ concat texts)
unfolding write_all
write_all-last_bytes before [] = ap (last_bytes max_daemon_diagnostics) (sym (append-nil before))
write_all-last_bytes before (text ∷ texts) =
    ap (λ b. write_all b texts) (write-last_bytes before text)
    ∙ write_all-last_bytes (before ++ text) texts
    ∙ ap (last_bytes max_daemon_diagnostics) (append_assoc before text (concat texts))

-- However the output of a spawned server is cut into writes, what is kept of it is its last
-- 64 KiB, or all of it if it is shorter.
pub write_all-kept :
    (texts : List Bytes) → write_all [] texts ≡ last_bytes max_daemon_diagnostics (concat texts)
write_all-kept texts = write_all-last_bytes [] texts
