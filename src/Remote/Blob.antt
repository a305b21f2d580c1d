-- ===== src/Remote/Blob.antt =====
-- server.go: serveBlob, which hands out one value in chunks.
use ghostline.Prelude.{
  ℕ, ◌+◌, ◌-◌, Bool, true, false, not, ◌||◌, Option, none, some, [], Bytes, length, take, drop, min,
  ◌==◌, bytes_eq, if◌then◌else◌,
}
use ghostline.Prelude.Int.{ℤ, pos, nonpositive, exceeds}
use ghostline.Errors.{Error, failure, Result, ok, err}
use ghostline.Size.{Size}
use ghostline.Output.Cursor.{Cursor, zero_cursor}
use ghostline.Rpc.{Request, ascii, to_nat}
use ghostline.Rpc.Responses.{max_rpc_chunk}
use ghostline.Session.Local.{Checkpoint, AtomicState}
use ghostline.Remote.{
  Codec, ChunkReadParams, BlobReadResult, BlobOpenResult, Reply, answer, refusal, grid_of,
}

-- A value to hand out, with what goes with it.
pub record Blob : Type 0 where
  pub content : Bytes
  pub cursor : Cursor
  pub format : Bytes
  pub grid : Size

abbrev pub atomic_state_format : Bytes
atomic_state_format = ascii "ghostty-vt-snapshot-v1"

abbrev pub no_size : Size
no_size = record { columns = pos 0; rows = pos 0 }

-- What the three methods open.
abbrev pub blob_of_replay : Bytes → Blob
blob_of_replay replay = record {
  content = replay;
  cursor = zero_cursor;
  format = [];
  grid = no_size;
}

abbrev pub blob_of_checkpoint : Checkpoint → Blob
blob_of_checkpoint c = record { content = c.replay; cursor = c.cursor; format = []; grid = no_size }

abbrev pub blob_of_state : AtomicState → Blob
blob_of_state a = record {
  content = a.payload;
  cursor = a.cursor;
  format = atomic_state_format;
  grid = a.size;
}

module _ (text : Error → Bytes) (opens : Codec BlobOpenResult) (params : Codec ChunkReadParams)
    (reads : Codec BlobReadResult) where
  -- The first response, and whether the blob is served from then on.
  unfoldable pub open_blob : ℤ → Result Blob → Reply × Bool
  open_blob id (err e) = (refusal text id e, false)
  open_blob id (ok b) = (
    answer id
        (opens.encode (record {
          size = pos (length b.content);
          cursor = b.cursor;
          format = b.format;
          grid = grid_of b.grid;
        }))
        [],
    true,
  )

  -- A read from the offset; the next offset, or none where the connection ends.
  abbrev pub read_from : Bytes → ℕ → ℤ → ℕ → Reply × Option ℕ
  read_from content offset id n =
      let end' = min (offset + n) (length content) in
      let at_end = end' == length content in
      (
        answer id (reads.encode (record { eof = at_end }))
            (take (end' - offset) (drop offset content)),
        (if at_end then none else some end'),
      )

  unfoldable pub read_blob_chunk : Bytes → ℕ → ℤ → Option ChunkReadParams → Reply × Option ℕ
  read_blob_chunk content offset id none = (refusal text id (failure []), some offset)
  read_blob_chunk content offset id (some p) =
      if nonpositive p.max_bytes || exceeds p.max_bytes max_rpc_chunk
      then (refusal text id (failure []), some offset)
      else read_from content offset id (to_nat p.max_bytes)

  -- One request of the loop.
  unfoldable pub serve_blob : Bytes → ℕ → Request → Reply × Option ℕ
  unfolding read_blob_chunk
  serve_blob content offset r =
      if not (length r.payload == 0)
      then (refusal text r.id (failure []), some offset)
      else if bytes_eq r.method (ascii "blob.close")
      then (answer r.id [] [], none)
      else if bytes_eq r.method (ascii "blob.read")
      then read_blob_chunk content offset r.id (params.decode r.params)
      else (refusal text r.id (failure []), some offset)
