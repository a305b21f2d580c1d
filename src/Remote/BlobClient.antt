-- ===== src/Remote/BlobClient.antt =====
-- client.go: readBlobOnceWithMetadata, which puts the chunks together.
use ghostline.Prelude.{
  ℕ, zero, suc, ◌+◌, Bool, false, not, ◌||◌, Option, none, some, [], ◌++◌, Bytes, length, take, ltb,
  ◌==◌, bytes_eq, if◌then◌else◌,
}
use ghostline.Prelude.Int.{pos, int_eq}
use ghostline.Errors.{Error, failure, eof, unexpected_eof, Result, ok, err, ◌>>=◌}
use ghostline.Rpc.{Request, ascii, to_nat, is_negative, wire_version}
use ghostline.Rpc.Responses.{max_rpc_chunk}
use ghostline.Session.Local.{AtomicState}
use ghostline.Remote.{
  Codec, ChunkReadParams, BlobReadResult, BlobOpenResult, Reply, check_reply, size_of_grid,
}
use ghostline.Remote.Blob.{Blob, open_blob, serve_blob, atomic_state_format}

-- What a chunk does to the loop.
pub data ChunkStep : Type 0 where
  fails : Error → ChunkStep
  done : Bytes → ChunkStep
  more : Bytes → ChunkStep

module _ (opens : Codec BlobOpenResult) (params : Codec ChunkReadParams)
    (reads : Codec BlobReadResult) where
  -- The request for the next chunk.
  abbrev pub blob_read_request : Request
  blob_read_request = record {
    wire = wire_version;
    id = pos 1;
    method = ascii "blob.read";
    params = params.encode (record { max_bytes = pos max_rpc_chunk; sized = false });
    payload_bytes = pos 0;
    payload = [];
  }

  abbrev pub check_opened : Option BlobOpenResult → Result BlobOpenResult
  check_opened none = err (failure [])
  check_opened (some opened) = if is_negative opened.size then err (failure []) else ok opened

  -- The response to the open request.
  unfoldable pub read_opened : Reply → Result BlobOpenResult
  read_opened r = check_reply (pos 1) r >>= λ checked.
      if not (int_eq checked.response.payload_bytes (pos 0))
      then err (failure [])
      else check_opened (opens.decode checked.response.result)

  abbrev pub after_chunk : ℕ → Bool → ℕ → Bytes → ChunkStep
  after_chunk size at_end n collected =
      if at_end
      then (if not (length collected == size) then fails (failure []) else done collected)
      else if n == 0
      then fails (failure [])
      else more collected

  abbrev pub take_payload : ℕ → ℕ → Bytes → Reply → Option BlobReadResult → ChunkStep
  take_payload size n collected r none = fails (failure [])
  take_payload size n collected r (some chunk) =
      if ltb max_rpc_chunk n || ltb size (length collected + n)
      then fails (failure [])
      else if ltb (length r.payload) n
      then fails unexpected_eof
      else after_chunk size chunk.eof n (collected ++ take n r.payload)

  -- One round of the loop.
  unfoldable pub take_chunk : ℕ → Bytes → Reply → ChunkStep
  take_chunk size collected r = elim (check_reply (pos 1) r) [
    | err e ↦ fails e
    | ok checked ↦
        take_payload size (to_nat checked.response.payload_bytes) collected checked
          (reads.decode checked.response.result)
  ]

  module _ (text : Error → Bytes) where
    abbrev pub after_step :
        (Bytes → Option ℕ → Option (Result Bytes)) → Option ℕ → ChunkStep → Option (Result Bytes)
    after_step rest next (fails e) = some (err e)
    after_step rest next (done whole) = some (ok whole)
    after_step rest next (more collected) = rest collected next

    -- The loop against a server at an offset, on fuel.
    unfoldable pub collect : ℕ → Bytes → ℕ → Bytes → Option ℕ → Option (Result Bytes)
    collect zero content size collected offset = none
    collect (suc fuel) content size collected none = some (err eof)
    collect (suc fuel) content size collected (some offset) =
        let (reply, next) = serve_blob text opens params reads content offset blob_read_request in
        after_step (collect fuel content size) next (take_chunk size collected reply)

    abbrev pub with_content : BlobOpenResult → Result Bytes → Result Blob
    with_content opened (err e) = err e
    with_content opened (ok content) = ok (record {
      content = content;
      cursor = opened.cursor;
      format = opened.format;
      grid = size_of_grid opened.grid;
    })

    abbrev pub content_of : Result Blob → Bytes
    content_of (err e) = []
    content_of (ok b) = b.content

    abbrev pub finish_blob : ℕ → Bytes → Result BlobOpenResult → Option (Result Blob)
    finish_blob fuel content (err e) = some (err e)
    finish_blob fuel content (ok opened) =
        elim (collect fuel content (to_nat opened.size) [] (some 0)) [
          | none ↦ none
          | some r ↦ some (with_content opened r)
        ]

    -- The whole call, against a server whose session gives `local`.
    unfoldable pub read_blob : ℕ → Result Blob → Option (Result Blob)
    unfolding read_opened collect
    read_blob fuel local =
        finish_blob fuel (content_of local)
          (read_opened (open_blob text opens params reads (pos 1) local).0)

-- readAtomicStateRetryable
unfoldable pub state_of_blob : Blob → Result AtomicState
state_of_blob b =
    if bytes_eq b.format atomic_state_format
    then ok (record { payload = b.content; cursor = b.cursor; size = b.grid })
    else err (failure [])
