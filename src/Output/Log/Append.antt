-- ===== src/Output/Log/Append.antt =====
-- `append` and `writeFull`: what is written and recorded, on every branch.
use ghostline.Prelude.{
  zero, suc, ◌+◌, ◌≤◌, ◌≡◌, ◌≢◌, ◌⊎◌, inl, inr, refl, ap, sym, ◌∙◌, true, false, Option, none, some,
  List, [], ◌∷◌, ◌++◌, Bytes, length, take, drop, arith, take-append-drop, Bool-cases, append_assoc,
  append-nil, subst,
}
use ghostline.Errors.{Error, short_write}
use ghostline.Output.Cursor.{max_int64}
use ghostline.Output.Log.{
  Log, WriteAnswer, active_segment, closed_error, signal, fail, write_full, append, append_written,
  grow, write_active, end_cursor,
}
use ghostline.Output.Log.Invariant.{
  IsLog, grow_write-IsLog, signal-IsLog, write_partly-IsLog, lookup-grow,
}

-- What reached the writer is a prefix of the data, and it is all of the data unless an error is
-- returned: a frame never loses its tail silently.
pub write_full_exact :
    (answers : List WriteAnswer) (data' : Bytes)
    → (rest : Bytes) × ((write_full answers data').0 ++ rest ≡ data')
      × ((rest ≡ []) ⊎ ((e : Error) × ((write_full answers data').1 ≡ some e)))
unfolding write_full
write_full_exact answers [] = ([], refl, inl refl)
write_full_exact [] (b ∷ data') = ([], append-nil _, inl refl)
write_full_exact ((n, some e) ∷ answers) (b ∷ data') =
    (drop n (b ∷ data'), take-append-drop n (b ∷ data'), inr (e, refl))
write_full_exact ((zero, none) ∷ answers) (b ∷ data') = (b ∷ data', refl, inr (short_write, refl))
write_full_exact ((suc n, none) ∷ answers) (b ∷ data') =
    let (rest, q, whole) = write_full_exact answers (drop n data') in
    (
      rest,
      ap (◌∷◌ b) (
          append_assoc (take n data') _ rest
          ∙ ap (◌++◌ (take n data')) q
          ∙ take-append-drop n data'),
      whole,
    )

write_full-none :
    (answers : List WriteAnswer) (data' : Bytes)
    → (write_full answers data').1 ≡ none
    → (write_full answers data').0 ≡ data'
write_full-none answers data' h =
    let (rest, q, w) = write_full_exact answers data' in
    elim w [
      | inl e ↦ sym (append-nil _) ∙ ap (◌++◌ (write_full answers data').0) (sym e) ∙ q
      | inr (x, e) ↦ cc
    ]

-- The three things that an append can do: nothing, since there is nothing to write or the log is
-- closed; record all of the data; or close the log after a failed write.
pub data Appended (data' : Bytes) (l : Log) (r : Log × Option Error) : Type 0 where
  nothing : data' ≡ [] → r ≡ (l, none) → Appended data' l r
  refused : l.closed ≡ true → r ≡ (l, some (closed_error l.err)) → Appended data' l r
  recorded :
      l.closed ≡ false
      → r ≡ (signal (grow (length data') (write_active data' l)), none)
      → Appended data' l r
  failed :
      l.closed ≡ false
      → (written : Bytes) (e : Error)
      → r ≡ (fail e (write_active written l), (fail e (write_active written l)).err)
      → Appended data' l r

append_written_cases :
    (data' written : Bytes) (e : Option Error) (l : Log)
    → l.closed ≡ false
    → (e ≡ none → written ≡ data')
    → Appended data' l (append_written data' (written, e) l)
unfolding append_written
append_written_cases data' written none l o q =
    recorded o (ap (λ w. (signal (grow (length data') (write_active w l)), none)) (q refl))
append_written_cases data' written (some e) l o q = failed o written e refl

pub append_cases :
    (answers : List WriteAnswer) (data' : Bytes) (l : Log)
    → Appended data' l (append answers data' l)
unfolding append
append_cases answers [] l = nothing refl refl
append_cases answers (b ∷ data') l = elim (Bool-cases l.closed) [
  | inl c ↦ refused c (ground arith)
  | inr o ↦
      let (written, e) = write_full answers (b ∷ data') in
      subst (Appended (b ∷ data') l) {x = append_written (b ∷ data') (written, e) l} (ground arith)
        (append_written_cases (b ∷ data') written e l o (write_full-none answers (b ∷ data')))
]

-- As long as the segment fits a signed 64-bit size, every append keeps the log well formed,
-- whatever the file system answers.
pub append-IsLog :
    (answers : List WriteAnswer) (data' : Bytes) (l : Log)
    → (active_segment l).size + length data' ≤ max_int64
    → IsLog l
    → IsLog (append answers data' l).0
append-IsLog answers data' l h v = go (append answers data' l) (append_cases answers data' l)
  where
    go : (r : Log × Option Error) → Appended data' l r → IsLog r.0
    go r (nothing _ q) = rw q v
    go r (refused _ q) = rw q v
    go r (recorded o q) = rw q (signal-IsLog _ (grow_write-IsLog data' l o h v))
    go r (failed _ written e q) = rw q (write_partly-IsLog e written l v)

end_cursor-grow :
    (data' : Bytes) (l : Log)
    → (active_segment l).size + length data' ≤ max_int64
    → end_cursor (signal (grow (length data') (write_active data' l)))
      ≡ record (end_cursor l) { offset = (active_segment l).size + length data' }
unfolding end_cursor signal grow write_active
end_cursor-grow data' l h = ground (arith, lookup-grow data' l l.generation)

pub failed_lem :
    (e : Error) (written : Bytes) (l : Log)
    → ((fail e (write_active written l)).err ≢ none)
      × ((fail e (write_active written l)).closed ≡ true)
      × (end_cursor (fail e (write_active written l)) ≡ end_cursor l)
      × ((fail e (write_active written l)).generation ≡ l.generation)
unfolding fail signal write_active end_cursor
failed_lem e written l = (ground arith, refl, refl, refl)

-- An append that keeps the size of the active segment within a signed 64-bit number either
-- succeeds, and the end of the log moves on by the length of the data, in the same generation;
-- or it fails, and from then on the log is closed and the end of the log is where it was.
pub append_outcome :
    (answers : List WriteAnswer) (data' : Bytes) (l : Log)
    → (active_segment l).size + length data' ≤ max_int64
    → IsLog l
    → let (l', e) = append answers data' l in
      ((e ≡ none)
        × (end_cursor l' ≡ record (end_cursor l) { offset = (end_cursor l).offset + length data' }))
      ⊎ ((e ≢ none) × (l'.closed ≡ true) × (end_cursor l' ≡ end_cursor l))
unfolding end_cursor
append_outcome answers data' l h v = go (append answers data' l) (append_cases answers data' l)
  where
    go :
        (r : Log × Option Error)
        → Appended data' l r
        → ((r.1 ≡ none)
            × (end_cursor r.0
                ≡ record (end_cursor l) { offset = (end_cursor l).offset + length data' }))
          ⊎ ((r.1 ≢ none) × (r.0.closed ≡ true) × (end_cursor r.0 ≡ end_cursor l))
    go r (nothing z q) = rw q (inl (refl, ground (arith, ap length z)))
    go r (refused c q) = rw q (inr ((λ n. cc), c, refl))
    go r (recorded o q) = rw q (inl (refl, end_cursor-grow data' l h))
    go r (failed _ written e q) = rw q (let (n, c, k, _) = failed_lem e written l in inr (n, c, k))
