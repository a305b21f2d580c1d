-- ===== src/Remote/Output.antt =====
-- server.go and client.go: serveOutput and remoteOutputSource, a reader of a session's output on
-- the other side of a connection.
use ghostline.Prelude.{
  ℕ, Bool, true, false, not, ◌&&◌, ◌||◌, Option, none, some, [], ◌∷◌, Bytes, length, take, ltb,
  ◌==◌, bytes_eq, if◌then◌else◌,
}
use ghostline.Prelude.Int.{ℤ, pos, nonpositive, exceeds}
use ghostline.Errors.{Error, failure, eof, unexpected_eof, closed_pipe, Result, ok, err}
use ghostline.Size.{Size, zero_size, size_eq}
use ghostline.Output.Cursor.{Cursor}
use ghostline.Rpc.{Request, ascii, to_nat}
use ghostline.Rpc.Responses.{max_rpc_chunk}
use ghostline.Remote.{
  Codec, ChunkReadParams, OutputReadResult, Reply, answer, refusal, check_reply, grid_of,
  size_of_grid,
}

-- What serveOutput makes of a request on an open stream.
pub data OutputAction : Type 0 where
  refuses : Error → OutputAction
  closes : OutputAction
  reads : ℕ → Bool → OutputAction  -- how many bytes, and whether sized

abbrev pub read_action : Option ChunkReadParams → OutputAction
read_action none = refuses (failure [])
read_action (some p) =
    if nonpositive p.max_bytes || exceeds p.max_bytes max_rpc_chunk
    then refuses (failure [])
    else reads (to_nat p.max_bytes) p.sized

unfoldable pub output_action : Codec ChunkReadParams → Request → OutputAction
output_action params r =
    if not (length r.payload == 0)
    then refuses (failure [])
    else if bytes_eq r.method (ascii "output.close")
    then closes
    else if bytes_eq r.method (ascii "output.read")
    then read_action (params.decode r.params)
    else refuses (failure [])

module _ (text : Error → Bytes) (results : Codec OutputReadResult) where
  abbrev pub output_result : Cursor → Bool → Size → Bytes
  output_result cursor at_end size =
      results.encode (record { cursor = cursor; eof = at_end; size = grid_of size })

  -- The response to a read that gave a chunk and left the reader at `cursor`, and whether the
  -- stream is served further. The end of the output is no error.
  unfoldable pub serve_read : ℤ → Cursor → Bytes → Size → Option Error → Reply × Bool
  serve_read id cursor bytes size none = (answer id (output_result cursor false size) bytes, true)
  serve_read id cursor bytes size (some eof) =
      (answer id (output_result cursor true size) bytes, false)
  serve_read id cursor bytes size (some e) = (refusal text id e, true)

-- remoteOutputSource
pub record RemoteReader : Type 0 where
  pub cursor : Cursor
  pub closed : Bool

-- What a read on the client's side gives.
pub record RemoteChunk : Type 0 where
  pub bytes : Bytes
  pub size : Size
  pub error : Option Error

abbrev pub nothing_but : Error → RemoteChunk
nothing_but e = record { bytes = []; size = zero_size; error = some e }

-- io.ErrNoProgress
abbrev pub no_progress : Error
no_progress = failure (ascii "multiple Read calls return no data or error")

module _ (results : Codec OutputReadResult) where
  abbrev pub reported_size : Bool → Option Size → Size
  reported_size true s = size_of_grid s
  reported_size false s = zero_size

  -- The end of readOnce, with the chunk read.
  abbrev pub delivered : Bytes → Size → Bool → RemoteChunk
  delivered (b ∷ bytes) size at_end = record { bytes = b ∷ bytes; size = size; error = none }
  delivered [] size at_end =
      if at_end
      then nothing_but eof
      else if not (size_eq size zero_size)
      then record { bytes = []; size = size; error = none }
      else nothing_but no_progress

  abbrev pub take_result :
      ℕ → Bool → RemoteReader → ℕ → Reply → Option OutputReadResult → RemoteReader × RemoteChunk
  take_result buffer sized r n reply none = (r, nothing_but (failure []))
  take_result buffer sized r n reply (some result) =
      if ltb buffer n || ltb max_rpc_chunk n
      then (r, nothing_but (failure []))
      else if ltb (length reply.payload) n
      then (r, nothing_but unexpected_eof)
      else (
        record r { cursor = result.cursor },
        delivered (take n reply.payload) (reported_size sized result.size) result.eof,
      )

  -- readOnce, with what it reads from the connection: a response, or the error of that.
  unfoldable pub read_once : ℕ → Bool → Result Reply → RemoteReader → RemoteReader × RemoteChunk
  read_once buffer sized received r =
      if buffer == 0
      then (r, record { bytes = []; size = zero_size; error = none })
      else if r.closed
      then (r, nothing_but closed_pipe)
      else elim received [
        | err e ↦ (r, nothing_but e)
        | ok reply ↦ elim (check_reply (pos 1) reply) [
          | err e ↦ (r, nothing_but e)
          | ok checked ↦
              take_result buffer sized r (to_nat checked.response.payload_bytes) checked
                (results.decode checked.response.result)
        ]
      ]

  abbrev pub is_stalled : Bool → RemoteChunk → Bool
  is_stalled sized c =
      sized
      && (length c.bytes == 0)
      && elim c.error [ none ↦ true | some e ↦ false ]
      && size_eq c.size zero_size

  abbrev pub or_stalled : Bool → RemoteReader × RemoteChunk → RemoteReader × RemoteChunk
  or_stalled sized (r, c) = (r, (if is_stalled sized c then nothing_but no_progress else c))

  -- remoteOutputSource.read
  unfoldable pub remote_read : ℕ → Bool → Result Reply → RemoteReader → RemoteReader × RemoteChunk
  unfolding read_once
  remote_read buffer sized received r = or_stalled sized (read_once buffer sized received r)

abbrev pub close_remote : RemoteReader → RemoteReader
close_remote r = record r { closed = true }
