-- ===== src/Remote/Whole.antt =====
-- server.go and client.go: the client gets the whole of a value that is handed out in chunks.
use ghostline.Prelude.{
  ℕ, zero, suc, ◌+◌, ◌-◌, ◌≤◌, ◌<◌, ◌≡◌, refl, sym, ◌∙◌, ap, Bool, true, false, ◌==◌, Option, none,
  some, [], ◌∷◌, ◌++◌, Bytes, length, take, drop, min, inl, inr, if◌then◌else◌, arith, Bool-cases,
  length-take, length-drop, take_all, ==_refl,
}
use ghostline.Prelude.Int.{pos}
use ghostline.Errors.{Error, failure, Result, ok, err}
use ghostline.Rpc.{new_rpc_error}
use ghostline.Rpc.Responses.{max_rpc_chunk}
use ghostline.Size.{Size, size_eq, size_eq_iff, zero_size}
use ghostline.Remote.{
  Codec, IsCodec, ChunkReadParams, BlobReadResult, BlobOpenResult, Reply, answer, check_reply,
  grid_of, size_of_grid, error_of,
}
use ghostline.Remote.Blob.{Blob, open_blob, serve_blob, read_from, read_blob_chunk}
use ghostline.Remote.BlobClient.{
  fails, more, blob_read_request, take_chunk, after_chunk, after_step, collect, read_blob,
  read_opened, finish_blob, content_of,
}

take-take-drop : (a b : ℕ) (xs : Bytes) → take a xs ++ take b (drop a xs) ≡ take (a + b) xs
take-take-drop zero b xs = ap (λ n. take n xs) (omega arith)
take-take-drop (suc a) b [] =
    take_all b [] (omega arith) ∙ sym (take_all (suc a + b) [] (omega arith))
take-take-drop (suc a) b (x ∷ xs) =
    ap (◌∷◌ x) (take-take-drop a b xs)
    ∙ ap (λ n. take n (x ∷ xs)) {x = suc (a + b)} {y = suc a + b} (omega arith)

-- What a result of the session is to the client.
abbrev pub remote_result : {A : Type 0} → (Error → Bytes) → Result A → Result A
remote_result text (ok a) = ok a
remote_result text (err e) = err (error_of (some (new_rpc_error text e)))

module _ (text : Error → Bytes) (opens : Codec BlobOpenResult) (params : Codec ChunkReadParams)
    (reads : Codec BlobReadResult) (opens-law : IsCodec opens) (params-law : IsCodec params)
    (reads-law : IsCodec reads) where
  take_chunk_lem :
      (size : ℕ) (collected chunk : Bytes) (at_end : Bool)
      → length chunk ≤ max_rpc_chunk
      → length collected + length chunk ≤ size
      → take_chunk opens params reads size collected
          (answer (pos 1) (reads.encode (record { eof = at_end })) chunk)
        ≡ after_chunk opens params reads size at_end (length chunk) (collected ++ chunk)
  unfolding take_chunk check_reply
  take_chunk_lem size collected chunk at_end h k =
      rw (reads-law (record { eof = at_end }))
        (ground (arith, take_all (length chunk) chunk (omega arith)))

  serve_blob_lem :
      (content : Bytes) (offset : ℕ)
      → serve_blob text opens params reads content offset (blob_read_request opens params reads)
        ≡ read_from text opens params reads content offset (pos 1) max_rpc_chunk
  unfolding serve_blob read_blob_chunk
  serve_blob_lem content offset =
      rw (params-law (record { max_bytes = pos max_rpc_chunk; sized = false })) refl

  -- The end of the next chunk.
  abbrev next_end : Bytes → ℕ → ℕ
  next_end content offset = min (offset + max_rpc_chunk) (length content)

  abbrev next_chunk : Bytes → ℕ → Bytes
  next_chunk content offset = take (next_end content offset - offset) (drop offset content)

  length-next_chunk :
      (content : Bytes) (offset : ℕ)
      → offset ≤ length content
      → length (next_chunk content offset) ≡ next_end content offset - offset
  length-next_chunk content offset h = omega (
    arith,
    length-take (next_end content offset - offset) (drop offset content),
    length-drop offset content,
  )

  next_chunk-append :
      (content : Bytes) (offset : ℕ)
      → offset ≤ length content
      → take offset content ++ next_chunk content offset ≡ take (next_end content offset) content
  next_chunk-append content offset h =
      take-take-drop offset (next_end content offset - offset) content
      ∙ ap (λ n. take n content) (omega arith)

  -- One round of the loop, from an offset that the client has reached.
  collect_step :
      (fuel : ℕ) (content : Bytes) (offset : ℕ)
      → offset ≤ length content
      → let end' = next_end content offset in
        collect opens params reads text
          (suc fuel)
          content
          (length content)
          (take offset content)
          (some offset)
        ≡ after_step opens params reads text
            (collect opens params reads text fuel content (length content))
            (if end' == length content then none else some end')
            (after_chunk opens params reads
              (length content)
              (end' == length content)
              (end' - offset)
              (take end' content))
  unfolding collect
  collect_step fuel content offset h =
      let rest = collect opens params reads text fuel content (length content) in
      let end' = next_end content offset in
      let chunk = next_chunk content offset in
      let n = length-next_chunk content offset h in
      ap
        (λ (r : Reply × Option ℕ).
          after_step opens params reads text rest r.1
            (take_chunk opens params reads (length content) (take offset content) r.0))
        (serve_blob_lem content offset)
      ∙ ap
          (after_step opens params reads text rest
            (if end' == length content then none else some end'))
          (take_chunk_lem (length content) (take offset content) chunk (end' == length content)
              (omega (arith, n)) (omega (arith, n, length-take offset content))
            ∙ rw (n, next_chunk-append content offset h) refl)

  -- The loop from an offset on: with fuel for each byte that is left it ends with the whole.
  collect_whole :
      (fuel : ℕ) (content : Bytes) (offset : ℕ)
      → offset ≤ length content
      → length content - offset < fuel
      → collect opens params reads text fuel content
          (length content)
          (take offset content)
          (some offset)
        ≡ some (ok content)
  collect_whole zero content offset h k = absurd (omega arith)
  collect_whole (suc fuel) content offset h k =
      let end' = next_end content offset in
      let rest = collect opens params reads text fuel content (length content) in
      let round = λ (b : Bool).
        after_step opens params reads text rest (if b then none else some end')
          (after_chunk opens params reads (length content) b (end' - offset) (take end' content)) in
      elim (Bool-cases (end' == length content)) [
        | inl e ↦
            collect_step fuel content offset h
            ∙ ap round e
            ∙ ap
                (λ w.
                  after_step opens params reads text rest none
                    (after_chunk opens params reads (length content) true (end' - offset) w))
                (take_all end' content (ground (arith, e)))
            ∙ rw (==_refl (length content)) refl
        | inr e ↦
            let moved : ((end' - offset) == 0) ≡ false = ground (arith, e) in
            collect_step fuel content offset h
            ∙ ap round e
            ∙ ap
                (λ b.
                  after_step opens params reads text rest (some end')
                    (if b then fails (failure []) else more (take end' content)))
                moved
            ∙ collect_whole fuel content end' (omega arith) (ground (arith, e))
      ]

  opened-check :
      (b : Blob)
      → read_opened opens params reads (open_blob text opens params reads (pos 1) (ok b)).0
        ≡ ok (record {
          size = pos (length b.content);
          cursor = b.cursor;
          format = b.format;
          grid = grid_of b.grid;
        })
  unfolding read_opened open_blob check_reply
  opened-check b =
      rw
        (opens-law (record {
          size = pos (length b.content);
          cursor = b.cursor;
          format = b.format;
          grid = grid_of b.grid;
        }))
        refl

  size_of_grid-grid_of : (s : Size) → size_of_grid (grid_of s) ≡ s
  size_of_grid-grid_of s = elim (Bool-cases (size_eq s zero_size)) [
    | inl q ↦ rw q (sym ((size_eq_iff s zero_size).0 q))
    | inr q ↦ rw q refl
  ]

  -- Whatever the session gives, however long it is, the client ends with it, with fuel for each
  -- byte and one more: with its bytes, cursor, format and size, or with what is left of its error
  -- in a response.
  pub read_blob-whole :
      (fuel : ℕ) (local : Result Blob)
      → length (content_of opens params reads text local) < fuel
      → read_blob opens params reads text fuel local ≡ some (remote_result text local)
  unfolding read_blob read_opened open_blob check_reply
  read_blob-whole fuel (err e) h = refl
  read_blob-whole fuel (ok b) h =
      ap (finish_blob opens params reads text fuel b.content) (opened-check b)
      ∙ rw (collect_whole fuel b.content 0 (omega arith) (omega arith), finish_blob)
          (ap (λ g. some (ok (record b { grid = g }))) (size_of_grid-grid_of b.grid))
