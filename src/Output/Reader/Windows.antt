-- ===== src/Output/Reader/Windows.antt =====
-- Parts of a file that a read sees.
use ghostline.Prelude.{
  ℕ, zero, suc, ◌+◌, ◌-◌, ◌≤◌, ◌<◌, ◌≡◌, refl, ap, sym, ◌∙◌, [], ◌∷◌, ◌++◌, Bytes, length, drop,
  take, arith, drop-drop, drop_all, append_assoc,
}
use ghostline.Output.Cursor.{Cursor}
use ghostline.Output.Log.{start_of}
use ghostline.Output.Log.Stream.{joined, stream_of}

take-append-drop-length :
    (j : ℕ) (text : Bytes) → take j text ++ drop (length (take j text)) text ≡ text
take-append-drop-length zero text = refl
take-append-drop-length (suc j) [] = refl
take-append-drop-length (suc j) (b ∷ text) = ap (◌∷◌ b) (take-append-drop-length j text)

-- Any front of what follows a position, and the rest behind it.
pub window_split :
    (j offset : ℕ) (text : Bytes)
    → let bytes = take j (drop offset text) in
      drop offset text ≡ bytes ++ drop (offset + length bytes) text
window_split j offset text =
    sym (take-append-drop-length j (drop offset text))
    ∙ ap (◌++◌ (take j (drop offset text)))
        (drop-drop offset (length (take j (drop offset text))) text)

-- Within the first `limit` bytes a window does not depend on what follows them.
pub window-take :
    (j offset limit : ℕ) (text : Bytes)
    → offset + j ≤ limit
    → take j (drop offset (take limit text)) ≡ take j (drop offset text)
window-take zero offset limit text h = refl
window-take (suc j) zero zero text h = absurd (omega arith)
window-take (suc j) zero (suc limit) [] h = refl
window-take (suc j) zero (suc limit) (b ∷ text) h =
    ap (◌∷◌ b) (window-take j zero limit text (omega arith))
window-take (suc j) (suc offset) zero text h = absurd (omega arith)
window-take (suc j) (suc offset) (suc limit) [] h = refl
window-take (suc j) (suc offset) (suc limit) (b ∷ text) h =
    window-take (suc j) offset limit text (omega arith)

-- Reading a window moves a stream on by it.
pub stream_of-window :
    (file : ℕ → Bytes) (last : ℕ) (c : Cursor) (j : ℕ)
    → let bytes = take j (drop c.offset (file c.generation)) in
      stream_of file last c
      ≡ bytes ++ stream_of file last (record c { offset = c.offset + length bytes })
unfolding stream_of
stream_of-window file last c j =
    ap (λ w. w ++ joined file (c.generation + 1) (last - c.generation))
      (window_split j c.offset (file c.generation))
    ∙ append_assoc (take j (drop c.offset (file c.generation))) _ _

-- At the end of a generation the stream goes on with the next.
pub stream_of-next :
    (file : ℕ → Bytes) (last : ℕ) (c : Cursor)
    → c.generation < last
    → length (file c.generation) ≤ c.offset
    → stream_of file last c ≡ stream_of file last (start_of (c.generation + 1))
unfolding stream_of joined
stream_of-next file last c h k =
    let e : last - c.generation ≡ suc (last - (c.generation + 1)) = omega arith in
    rw (drop_all c.offset (file c.generation) k, e) refl

-- And at the end of the last one it is empty.
pub stream_of-end :
    (file : ℕ → Bytes) (last : ℕ) (c : Cursor)
    → c.generation ≡ last
    → length (file c.generation) ≤ c.offset
    → stream_of file last c ≡ []
unfolding stream_of joined
stream_of-end file last c h k =
    let e : last - c.generation ≡ 0 = omega arith in
    rw (drop_all c.offset (file c.generation) k, e) refl
