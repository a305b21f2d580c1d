-- ===== src/Rpc/Codes.antt =====
-- rpc.go: an error keeps its identity on the wire.
use ghostline.Prelude.{◌≡◌, refl, Bool, true, false, Bytes, take, some, if◌then◌else◌}
use ghostline.Errors.{
  Error, unavailable, closed, session_exists, session_not_found, session_closed,
  invalid_session_name, invalid_signal, invalid_cursor, cursor_expired, frame_too_large,
  protocol_mismatch, process_done, failure, eof, unexpected_eof, closed_pipe, short_write, canceled,
  os_error,
}
use ghostline.Rpc.{rpc_code, new_rpc_error, sentinel_of, decode_rpc_error, max_rpc_error_message}

-- The errors that have a code of their own.
abbrev pub is_sentinel : Error → Bool
is_sentinel unavailable = true
is_sentinel closed = true
is_sentinel session_exists = true
is_sentinel session_not_found = true
is_sentinel session_closed = true
is_sentinel invalid_session_name = true
is_sentinel invalid_signal = true
is_sentinel invalid_cursor = true
is_sentinel cursor_expired = true
is_sentinel frame_too_large = true
is_sentinel protocol_mismatch = true
is_sentinel process_done = true
is_sentinel e = false

-- What the client finds in the response to an error: the same sentinel, or, for an error
-- without a code, an error with the text of the original, cut off at 4096 bytes.
pub decode_rpc_error-new_rpc_error :
    (text : Error → Bytes) (e : Error)
    → decode_rpc_error (some (new_rpc_error text e))
      ≡ some (if is_sentinel e then e else failure (take max_rpc_error_message (text e)))
unfolding decode_rpc_error new_rpc_error sentinel_of rpc_code
decode_rpc_error-new_rpc_error text unavailable = refl
decode_rpc_error-new_rpc_error text closed = refl
decode_rpc_error-new_rpc_error text session_exists = refl
decode_rpc_error-new_rpc_error text session_not_found = refl
decode_rpc_error-new_rpc_error text session_closed = refl
decode_rpc_error-new_rpc_error text invalid_session_name = refl
decode_rpc_error-new_rpc_error text invalid_signal = refl
decode_rpc_error-new_rpc_error text invalid_cursor = refl
decode_rpc_error-new_rpc_error text cursor_expired = refl
decode_rpc_error-new_rpc_error text frame_too_large = refl
decode_rpc_error-new_rpc_error text protocol_mismatch = refl
decode_rpc_error-new_rpc_error text process_done = refl
decode_rpc_error-new_rpc_error text closed_pipe = refl
decode_rpc_error-new_rpc_error text eof = refl
decode_rpc_error-new_rpc_error text unexpected_eof = refl
decode_rpc_error-new_rpc_error text short_write = refl
decode_rpc_error-new_rpc_error text canceled = refl
decode_rpc_error-new_rpc_error text (os_error n) = refl
decode_rpc_error-new_rpc_error text (failure t) = refl
