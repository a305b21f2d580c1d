-- ===== src/Rpc/Responses.antt =====
-- rpc.go: responses, as the server writes them, and readResponse of client.go. The JSON encoder
-- and decoder are parameters.
use ghostline.Prelude.{
  ℕ, suc, ◌+◌, Bool, true, false, not, ◌&&◌, ◌||◌, [], ◌∷◌, ◌++◌, Bytes, length, Option, none, some,
  if◌then◌else◌, ltb, is_some,
}
use ghostline.Prelude.Int.{ℤ, pos, negsuc, int_eq, nonpositive}
use ghostline.Errors.{Error, frame_too_large, protocol_mismatch, failure, Result, ok, err}
use ghostline.Rpc.{
  RpcError, new_rpc_error, read_line, max_rpc_frame, max_rpc_payload, wire_version, is_negative,
  to_nat,
}

abbrev pub max_rpc_chunk : ℕ
max_rpc_chunk = 65536

pub record Response : Type 0 where
  pub wire : ℤ
  pub id : ℤ
  pub result : Bytes
  pub error : Option RpcError
  pub payload_bytes : ℤ

module _ (marshal : Response → Option Bytes) (text : Error → Bytes) where
  -- encodeResponse, for a result that is encoded already.
  unfoldable pub response_of : ℤ → Bytes → ℕ → Option Error → Response
  response_of id result payload_bytes none = record {
    wire = wire_version;
    id = id;
    result = result;
    error = none;
    payload_bytes = pos payload_bytes;
  }
  response_of id result payload_bytes (some e) = record {
    wire = wire_version;
    id = id;
    result = [];
    error = some (new_rpc_error text e);
    payload_bytes = pos payload_bytes;
  }

  unfoldable pub encode_response : ℤ → Bytes → ℕ → Option Error → Option Bytes
  encode_response id result payload_bytes e =
      elim (marshal (response_of id result payload_bytes e)) [
        | none ↦ none
        | some encoded ↦
            if ltb max_rpc_frame (length encoded + 1)
            then marshal (response_of id [] 0 (some frame_too_large))
            else some encoded
      ]

  abbrev pub payload_of : Bytes → Option Error → Bytes
  payload_of data' none = data'
  payload_of data' (some e) = []

  -- writeRawResponse: what it writes.
  unfoldable pub write_raw_response : ℤ → Bytes → Bytes → Option Error → Result Bytes
  write_raw_response id result data' e =
      if ltb max_rpc_chunk (length data')
      then err frame_too_large
      else elim (encode_response id result (length (payload_of data' e)) e) [
        | none ↦ err (failure [])
        | some encoded ↦ ok (encoded ++ (10 ∷ payload_of data' e))
      ]

  -- writeResponse
  unfoldable pub write_response : ℤ → Bytes → Option Error → Result Bytes
  write_response id result e = elim (encode_response id result 0 e) [
    | none ↦ err (failure [])
    | some encoded ↦ ok (encoded ++ (10 ∷ []))
  ]

abbrev pub minus_one : ℤ
minus_one = negsuc 0

abbrev pub is_nil : Bytes → Bool
is_nil [] = true
is_nil (c ∷ rest) = false

-- The tests of readResponse.
unfoldable pub check_response : Response → Result Response
check_response r =
    if not (int_eq r.wire wire_version)
    then err protocol_mismatch
    else if nonpositive r.id && not (int_eq r.id minus_one)
    then err (failure [])
    else if is_negative r.payload_bytes || ltb max_rpc_payload (to_nat r.payload_bytes)
    then err frame_too_large
    else if is_some r.error && (not (is_nil r.result) || not (int_eq r.payload_bytes (pos 0)))
    then err (failure [])
    else ok r

unfoldable pub read_response :
    (Bytes → Option Response) → ℕ → Error → Bytes → Option (Result (Response × Bytes))
read_response unmarshal size ended stream =
    elim (read_line (suc (length stream)) max_rpc_frame size ended [] stream) [
      | none ↦ none
      | some (err e) ↦ some (err e)
      | some (ok (line, rest)) ↦ elim (unmarshal line) [
        | none ↦ some (err (failure []))
        | some r ↦ elim (check_response r) [
          | err e ↦ some (err e)
          | ok known ↦ some (ok (known, rest))
        ]
      ]
    ]
