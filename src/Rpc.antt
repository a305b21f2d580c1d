-- ===== src/Rpc.antt =====
-- rpc.go: the codes of errors on the wire, and the reading of requests. The JSON decoder is a
-- parameter.
use Prim.Native.Char.{code}
use Prim.Native.String.{String}
use ghostline.Prelude.{
  ℕ, zero, suc, ◌+◌, ◌-◌, Bool, true, false, not, ◌&&◌, ◌||◌, List, [], ◌∷◌, ◌++◌, Bytes, length,
  take, drop, Option, none, some, if◌then◌else◌, ◌==◌, ltb, leb, bytes_eq,
}
use ghostline.Prelude.Int.{ℤ, pos, negsuc, int_eq, nonpositive}
use ghostline.Errors.{
  Error, unavailable, closed, session_exists, session_not_found, session_closed,
  invalid_session_name, invalid_signal, invalid_cursor, cursor_expired, frame_too_large,
  protocol_mismatch, process_done, failure, eof, unexpected_eof, closed_pipe, short_write, canceled,
  os_error, Result, ok, err,
}
mod Codes
mod Lines
mod Requests
mod RoundTrip
pub mod Responses
mod Examples

abbrev pub max_rpc_frame : ℕ
max_rpc_frame = 1048576

abbrev pub max_rpc_payload : ℕ
max_rpc_payload = 1048576

abbrev pub max_rpc_error_message : ℕ
max_rpc_error_message = 4096

abbrev pub wire_version : ℤ
wire_version = pos 1

-- The bytes of an ASCII literal.
abbrev pub ascii : String → Bytes
ascii (String.◌∷◌ letter rest) = code letter ∷ ascii rest
ascii String.[] = []

pub record RpcError : Type 0 where
  pub rpc_error_code : Bytes
  pub message : Bytes

unfoldable pub rpc_code : Error → Bytes
rpc_code unavailable = ascii "unavailable"
rpc_code closed = ascii "closed"
rpc_code session_exists = ascii "session_exists"
rpc_code session_not_found = ascii "session_not_found"
rpc_code session_closed = ascii "session_closed"
rpc_code invalid_session_name = ascii "invalid_name"
rpc_code invalid_signal = ascii "invalid_signal"
rpc_code process_done = ascii "process_done"
rpc_code invalid_cursor = ascii "invalid_cursor"
rpc_code cursor_expired = ascii "cursor_expired"
rpc_code frame_too_large = ascii "frame_too_large"
rpc_code protocol_mismatch = ascii "protocol_mismatch"
rpc_code closed_pipe = ascii "internal"
rpc_code eof = ascii "internal"
rpc_code unexpected_eof = ascii "internal"
rpc_code short_write = ascii "internal"
rpc_code canceled = ascii "internal"
rpc_code (os_error n) = ascii "internal"
rpc_code (failure text) = ascii "internal"

-- The error's text is a parameter: it is cut off, and otherwise only passed on.
unfoldable pub new_rpc_error : (Error → Bytes) → Error → RpcError
unfolding rpc_code
new_rpc_error text e = record {
  rpc_error_code = rpc_code e;
  message = take max_rpc_error_message (text e);
}

unfoldable pub sentinel_of : Bytes → Option Error
sentinel_of c =
    if bytes_eq c (ascii "unavailable")
    then some unavailable
    else if bytes_eq c (ascii "closed")
    then some closed
    else if bytes_eq c (ascii "session_exists")
    then some session_exists
    else if bytes_eq c (ascii "session_not_found")
    then some session_not_found
    else if bytes_eq c (ascii "session_closed")
    then some session_closed
    else if bytes_eq c (ascii "invalid_name")
    then some invalid_session_name
    else if bytes_eq c (ascii "invalid_signal")
    then some invalid_signal
    else if bytes_eq c (ascii "process_done")
    then some process_done
    else if bytes_eq c (ascii "invalid_cursor")
    then some invalid_cursor
    else if bytes_eq c (ascii "cursor_expired")
    then some cursor_expired
    else if bytes_eq c (ascii "frame_too_large")
    then some frame_too_large
    else if bytes_eq c (ascii "protocol_mismatch")
    then some protocol_mismatch
    else none

unfoldable pub decode_rpc_error : Option RpcError → Option Error
unfolding sentinel_of
decode_rpc_error none = none
decode_rpc_error (some e) = elim (sentinel_of e.rpc_error_code) [
  | some sentinel ↦ some sentinel
  | none ↦ some (failure e.message)
]

-- bufio.Reader.ReadSlice('\n'), for what is left of a buffer's size and of the stream.
pub data SliceEnd : Type 0 where
  found buffer_full stream_ended : SliceEnd

abbrev pub push : ℕ → Bytes × Bytes × SliceEnd → Bytes × Bytes × SliceEnd
push c (chunk, rest, end) = (c ∷ chunk, rest, end)

unfoldable pub read_slice : ℕ → Bytes → Bytes × Bytes × SliceEnd
read_slice zero stream = ([], stream, buffer_full)
read_slice (suc n) [] = ([], [], stream_ended)
read_slice (suc n) (c ∷ stream) =
    let rest = read_slice n stream in if c == 10 then (c ∷ [], stream, found) else push c rest

-- The loop of readLine, on fuel: the line and what is left of the stream. `ended` is the error
-- at the end of the stream.
unfoldable pub read_line : ℕ → ℕ → ℕ → Error → Bytes → Bytes → Option (Result (Bytes × Bytes))
read_line zero limit size ended line stream = none
read_line (suc fuel) limit size ended line stream =
    let (chunk, rest, end) = read_slice size stream in
    let more = read_line fuel limit size ended (line ++ chunk) rest in
    if ltb limit (length (line ++ chunk)) then some (err frame_too_large) else elim end [
      | found ↦ some (ok (line ++ chunk, rest))
      | buffer_full ↦ more
      | stream_ended ↦ some (err ended)
    ]

pub record Request : Type 0 where
  pub wire : ℤ
  pub id : ℤ
  pub method : Bytes
  pub params : Bytes
  pub payload_bytes : ℤ
  pub payload : Bytes

abbrev pub to_nat : ℤ → ℕ
to_nat (pos n) = n
to_nat (negsuc n) = 0

abbrev pub is_negative : ℤ → Bool
is_negative (pos n) = false
is_negative (negsuc n) = true

abbrev pub short_read : Error → Error
short_read eof = unexpected_eof
short_read e = e

-- io.ReadFull of n bytes.
unfoldable pub read_full : Error → ℕ → Bytes → Result (Bytes × Bytes)
read_full ended n stream =
    if leb n (length stream)
    then ok (take n stream, drop n stream)
    else elim stream [ [] ↦ err ended | c ∷ rest ↦ err (short_read ended) ]

-- The tests of readRequest, and the payload.
unfoldable pub read_payload : Error → Request → Bytes → Result (Request × Bytes)
read_payload ended r stream =
    if not (int_eq r.wire wire_version)
    then err protocol_mismatch
    else if nonpositive r.id || (length r.method == 0)
    then err (failure [])
    else if is_negative r.payload_bytes || ltb max_rpc_payload (to_nat r.payload_bytes)
    then err frame_too_large
    else if ltb 0 (to_nat r.payload_bytes)
    then elim (read_full ended (to_nat r.payload_bytes) stream) [
      | err e ↦ err e
      | ok read ↦ ok (record r { payload = read.0 }, read.1)
    ]
    else ok (r, stream)

-- readRequest on a stream, with the size of the reader's buffer.
unfoldable pub read_request :
    (Bytes → Option Request) → ℕ → Error → Bytes → Option (Result (Request × Bytes))
read_request unmarshal size ended stream =
    elim (read_line (suc (length stream)) max_rpc_frame size ended [] stream) [
      | none ↦ none
      | some (err e) ↦ some (err e)
      | some (ok (line, rest)) ↦ elim (unmarshal line) [
        | none ↦ some (err (failure []))
        | some r ↦ some (read_payload ended r rest)
      ]
    ]
