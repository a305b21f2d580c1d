-- ===== src/Rpc/Lines.antt =====
-- rpc.go: a line is read whole, however the reader's buffer cuts it up.
use ghostline.Prelude.{
  ℕ, zero, suc, ◌≤◌, ◌<◌, ◌≡◌, refl, ap, ◌∙◌, sym, inl, inr, true, [], ◌∷◌, ◌++◌, Bytes, length,
  take, drop, Option, some, if◌then◌else◌, ltb, arith, Bool-cases, length-append, length-drop,
  append_assoc, take-append-drop,
}
use ghostline.Errors.{Error, frame_too_large, Result, ok, err}
use ghostline.Text.Split.{Avoids}
use ghostline.Rpc.{found, buffer_full, read_slice, read_line}

read_slice_found :
    (size : ℕ) (text rest : Bytes)
    → Avoids 10 text
    → length text < size
    → read_slice size (text ++ (10 ∷ rest)) ≡ (text ++ (10 ∷ []), rest, found)
unfolding read_slice
read_slice_found zero text rest a h = absurd (omega arith)
read_slice_found (suc size) [] rest a h = refl
read_slice_found (suc size) (c ∷ text) rest a h =
    rw (a.0, read_slice_found size text rest a.1 (omega arith), read_slice) refl

read_slice_full :
    (size : ℕ) (text rest : Bytes)
    → Avoids 10 text
    → size ≤ length text
    → read_slice size (text ++ rest) ≡ (take size text, drop size text ++ rest, buffer_full)
unfolding read_slice
read_slice_full zero text rest a h = refl
read_slice_full (suc size) [] rest a h = absurd (omega arith)
read_slice_full (suc size) (c ∷ text) rest a h =
    rw (a.0, read_slice_full size text rest a.1 (omega arith), read_slice) refl

Avoids-drop : (c n : ℕ) (text : Bytes) → Avoids c text → Avoids c (drop n text)
Avoids-drop c zero text a = a
Avoids-drop c (suc n) [] a = tt
Avoids-drop c (suc n) (x ∷ text) a = Avoids-drop c n text a.1

-- The result of reading a line: the line, or the error if it is longer than the limit.
abbrev pub line_result : ℕ → Bytes → Bytes → Result (Bytes × Bytes)
line_result limit line rest =
    if ltb limit (length line) then err frame_too_large else ok (line, rest)

read_line_found :
    (fuel limit size : ℕ) (ended : Error) (line chunk rest stream : Bytes)
    → read_slice size stream ≡ (chunk, rest, found)
    → read_line (suc fuel) limit size ended line stream
      ≡ some (line_result limit (line ++ chunk) rest)
unfolding read_line
read_line_found fuel limit size ended line chunk rest stream e = ground (arith, e)

read_line_full :
    (fuel limit size : ℕ) (ended : Error) (line chunk rest stream : Bytes)
    → read_slice size stream ≡ (chunk, rest, buffer_full)
    → read_line (suc fuel) limit size ended line stream ≡ (
        if ltb limit (length (line ++ chunk))
        then some (err frame_too_large)
        else read_line fuel limit size ended (line ++ chunk) rest)
unfolding read_line
read_line_full fuel limit size ended line chunk rest stream e = ground (arith, e)

line_split :
    (line text : Bytes) (size : ℕ)
    → (line ++ take size text) ++ (drop size text ++ (10 ∷ [])) ≡ line ++ (text ++ (10 ∷ []))
line_split line text size =
    append_assoc line (take size text) (drop size text ++ (10 ∷ []))
    ∙ ap (λ t. line ++ t)
        (sym (append_assoc (take size text) (drop size text) (10 ∷ []))
          ∙ ap (λ t. t ++ (10 ∷ [])) (take-append-drop size text))

still_long :
    (limit : ℕ) (line text : Bytes) (size : ℕ)
    → ltb limit (length (line ++ take size text)) ≡ true
    → ltb limit (length (line ++ (text ++ (10 ∷ [])))) ≡ true
still_long limit line text size h = ground (
  arith,
  ap length (line_split line text size),
  length-append (line ++ take size text) (drop size text ++ (10 ∷ [])),
)

-- A chunk that is too long is a line that is too long.
too_long :
    (limit : ℕ) (line text : Bytes) (size : ℕ) (rest : Bytes)
    {more : Option (Result (Bytes × Bytes))}
    → more ≡ some (line_result limit (line ++ take size text ++ (drop size text ++ (10 ∷ []))) rest)
    → (if ltb limit (length (line ++ take size text)) then some (err frame_too_large) else more)
      ≡ some (line_result limit (line ++ (text ++ (10 ∷ []))) rest)
too_long limit line text size rest e =
    elim (Bool-cases (ltb limit (length (line ++ take size text)))) [
      | inl large ↦ rw (large, still_long limit line text size large) refl
      | inr fits ↦
          rw fits (e ∙ ap (λ t. some (line_result limit t rest)) (line_split line text size))
    ]

-- A line that ends with a newline is read up to it, and refused if it is longer than the
-- limit, whatever the size of the buffer.
pub read_line_exact :
    (fuel limit size : ℕ) (ended : Error) (line text rest : Bytes)
    → 0 < size
    → Avoids 10 text
    → length text < fuel
    → read_line fuel limit size ended line (text ++ (10 ∷ rest))
      ≡ some (line_result limit (line ++ (text ++ (10 ∷ []))) rest)
read_line_exact zero limit size ended line text rest s a h = absurd (omega arith)
read_line_exact (suc fuel) limit size ended line text rest s a h =
    elim (Bool-cases (ltb (length text) size)) [
      | inl e ↦
          read_line_found fuel limit size ended line (text ++ (10 ∷ [])) rest _
            (read_slice_found size text rest a (ground arith))
      | inr n ↦
          let chunk = take size text in
          let left = drop size text in
          read_line_full fuel limit size ended line chunk (left ++ (10 ∷ rest)) _
            (read_slice_full size text (10 ∷ rest) a (ground arith))
          ∙ too_long limit line text size rest (
              read_line_exact fuel limit size ended (line ++ chunk) left rest s
                (Avoids-drop 10 size text a) (ground (arith, length-drop size text)))
    ]
