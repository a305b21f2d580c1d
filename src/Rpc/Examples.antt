-- ===== src/Rpc/Examples.antt =====
-- rpc.go: frames on the wire.
use ghostline.Prelude.{
  ◌≡◌, refl, [], ◌∷◌, ◌++◌, Bytes, Option, none, some, arith, bytes_eq, if◌then◌else◌,
}
use ghostline.Prelude.Int.{pos}
use ghostline.Errors.{Error, eof, frame_too_large, session_exists, ok, err}
use ghostline.Rpc.{
  Request, ascii, new_rpc_error, decode_rpc_error, read_slice, read_line, read_request,
}
use ghostline.Rpc.Codes.{decode_rpc_error-new_rpc_error}
use ghostline.Rpc.Lines.{read_line_exact}
use ghostline.Rpc.Requests.{read_request_frame}
use ghostline.Rpc.Responses.{Response, write_raw_response, read_response}
use ghostline.Rpc.RoundTrip.{written, read_response-write_raw_response}

abbrev no_text : Error → Bytes
no_text e = ascii "name"

decode_rpc_error-new_rpc_error_test :
    decode_rpc_error (some (new_rpc_error no_text session_exists)) ≡ some session_exists
decode_rpc_error-new_rpc_error_test = decode_rpc_error-new_rpc_error no_text session_exists

abbrev word : Bytes
word = ascii "list"

read_line_exact_test :
    read_line 6 9 2 eof [] (word ++ (10 ∷ word)) ≡ some (ok (word ++ (10 ∷ []), word))
read_line_exact_test =
    read_line_exact 6 9 2 eof [] word word (omega arith) (refl, (refl, (refl, (refl, tt))))
      (omega arith)

abbrev header : Request
header = record {
  wire = pos 1;
  id = pos 3;
  method = ascii "input";
  params = [];
  payload_bytes = pos 2;
  payload = [];
}

-- A decoder that knows one line.
abbrev unmarshal : Bytes → Option Request
unmarshal line = if bytes_eq line (word ++ (10 ∷ [])) then some header else none

abbrev keys : Bytes
keys = ascii "ls"

read_request_frame_example :
    read_request unmarshal 3 eof (word ++ (10 ∷ (keys ++ word)))
    ≡ some (ok (record header { payload = keys }, word))
read_request_frame_example =
    read_request_frame unmarshal 3 eof word keys word header (omega arith)
      (refl, (refl, (refl, (refl, tt)))) (omega arith) refl
      (refl, refl, omega arith, refl, omega arith)

-- A line that is longer than the limit is refused.
long_line : read_line 6 3 2 eof [] (word ++ (10 ∷ [])) ≡ some (err frame_too_large)
unfolding read_line read_slice
long_line = refl

-- An encoder that knows one response.
abbrev marshal : Response → Option Bytes
marshal r = some word

abbrev answered : Response
answered = written marshal no_text (pos 3) keys keys none

abbrev unmarshal_response : Bytes → Option Response
unmarshal_response line = if bytes_eq line (word ++ (10 ∷ [])) then some answered else none

read_response-write_raw_response_example :
    (write_raw_response marshal no_text (pos 3) keys keys none ≡ ok (word ++ (10 ∷ keys)))
    × (read_response unmarshal_response 3 eof (word ++ (10 ∷ (keys ++ word)))
        ≡ some (ok (answered, keys ++ word)))
read_response-write_raw_response_example =
    read_response-write_raw_response marshal no_text (pos 3) keys keys none unmarshal_response 3 eof
      word word (omega arith) refl (omega arith) refl (refl, (refl, (refl, (refl, tt))))
      (omega arith) refl
