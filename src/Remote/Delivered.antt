-- ===== src/Remote/Delivered.antt =====
-- server.go and client.go: a read on the client's side gives what the read on the server's gave.
use ghostline.Prelude.{
  ℕ, ◌≤◌, ◌<◌, ◌≡◌, ◌≢◌, refl, sym, ◌∙◌, ap, Bool, true, false, Option, none, some, [], ◌∷◌, Bytes,
  length, inl, inr, if◌then◌else◌, arith, Bool-cases, take_all,
}
use ghostline.Prelude.Int.{pos}
use ghostline.Errors.{Error, eof, ok}
use ghostline.Size.{Size, zero_size, size_eq, size_eq_iff}
use ghostline.Output.Cursor.{Cursor}
use ghostline.Rpc.{new_rpc_error}
use ghostline.Rpc.Responses.{max_rpc_chunk}
use ghostline.Remote.{
  Codec, OutputReadResult, answer, refusal, check_reply, grid_of, size_of_grid, error_of,
}
use ghostline.Remote.Output.{
  RemoteReader, serve_read, remote_read, read_once, delivered, reported_size, nothing_but,
  or_stalled,
}

-- The JSON of a result at this cursor is read back.
abbrev pub ReadsBack : Codec OutputReadResult → Cursor → Type 0
ReadsBack results cursor =
    (at_end : Bool) (size : Size)
    → results.decode
        (results.encode (record { cursor = cursor; eof = at_end; size = grid_of size }))
      ≡ some (record { cursor = cursor; eof = at_end; size = grid_of size })

module _ (text : Error → Bytes) (results : Codec OutputReadResult) (buffer : ℕ) (sized : Bool)
    (cursor : Cursor) (law : ReadsBack results cursor) (r : RemoteReader)
    (open' : r.closed ≡ false) where
  -- What readOnce makes of a response with a result.
  read_answer :
      (bytes : Bytes) (at_end : Bool) (size : Size)
      → 0 < buffer
      → length bytes ≤ buffer
      → length bytes ≤ max_rpc_chunk
      → read_once results buffer sized
          (ok (
            answer
              (pos 1)
              (results.encode (record { cursor = cursor; eof = at_end; size = grid_of size }))
              bytes))
          r
        ≡ (
          record r { cursor = cursor },
          delivered results bytes (reported_size results sized (grid_of size)) at_end,
        )
  unfolding read_once check_reply
  read_answer bytes at_end size h k l =
      rw (law at_end size) (ground (arith, open', take_all (length bytes) bytes (omega arith)))

  grid_back : (size : Size) → size_of_grid (grid_of size) ≡ size
  grid_back size = elim (Bool-cases (size_eq size zero_size)) [
    | inl q ↦ rw q (sym ((size_eq_iff size zero_size).0 q))
    | inr q ↦ rw q refl
  ]

  reported_lem :
      (size : Size)
      → reported_size results sized (grid_of size) ≡ (if sized then size else zero_size)
  reported_lem size = elim (Bool-cases sized) [ inl q ↦ rw q (grid_back size) | inr q ↦ rw q refl ]

  served_error :
      (bytes : Bytes) (size : Size) (e : Error)
      → e ≢ eof
      → (serve_read text results (pos 1) cursor bytes size (some e)).0 ≡ refusal text (pos 1) e
  unfolding serve_read
  served_error bytes size e n = ground arith

  refused_lem :
      (e : Error)
      → 0 < buffer
      → remote_read results buffer sized (ok (refusal text (pos 1) e)) r
        ≡ (r, nothing_but (error_of (some (new_rpc_error text e))))
  unfolding remote_read read_once check_reply
  refused_lem e h = ground (arith, open')

  -- Where the reader of the server gives bytes, no more than the buffer and a chunk hold, the
  -- client's gives the same, with the size if it asked for that, and stands at the same cursor;
  -- where the output has ended, the client's has; where the server's reader fails, with or without
  -- bytes, the client gets the error that the response carries and stays where it was.
  pub remote_read-chunk :
      (b : ℕ) (bytes lost : Bytes) (size : Size) (e : Error)
      → 0 < buffer
      → length (b ∷ bytes) ≤ buffer
      → length (b ∷ bytes) ≤ max_rpc_chunk
      → e ≢ eof
      → let served = λ (chunk : Bytes) (cause : Option Error).
        remote_read results buffer sized
          (ok (serve_read text results (pos 1) cursor chunk size cause).0)
          r in
        (served (b ∷ bytes) none ≡ (
          record r { cursor = cursor },
          record { bytes = b ∷ bytes; size = if sized then size else zero_size; error = none },
        ))
        × (served [] (some eof) ≡ (record r { cursor = cursor }, nothing_but eof))
        × (served lost (some e) ≡ (r, nothing_but (error_of (some (new_rpc_error text e)))))
  unfolding remote_read serve_read
  remote_read-chunk b bytes lost size e h k l n = (
    ap (or_stalled results sized) (read_answer (b ∷ bytes) false size h k l)
        ∙ ap
            (λ (s : Size).
              or_stalled results sized (
                record r { cursor = cursor },
                record { bytes = b ∷ bytes; size = s; error = none },
              ))
            (reported_lem size)
        ∙ ground arith,
    ap (or_stalled results sized) (read_answer [] true size h (omega arith) (omega arith))
        ∙ ground arith,
    ap (λ reply. remote_read results buffer sized (ok reply) r) (served_error lost size e n)
        ∙ refused_lem e h,
  )
