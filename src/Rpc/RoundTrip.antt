-- ===== src/Rpc/RoundTrip.antt =====
-- rpc.go and client.go: what the server writes is what the client reads.
use ghostline.Prelude.{
  ℕ, suc, ◌+◌, ◌≤◌, ◌<◌, ◌≡◌, refl, false, [], ◌∷◌, ◌++◌, Bytes, length, Option, none, some, ltb,
  arith, length-append,
}
use ghostline.Prelude.Int.{ℤ, nonpositive}
use ghostline.Errors.{Error, ok}
use ghostline.Text.Split.{Avoids}
use ghostline.Rpc.{max_rpc_frame}
use ghostline.Rpc.Lines.{read_line_exact}
use ghostline.Rpc.Requests.{short}
use ghostline.Rpc.Responses.{
  Response, response_of, encode_response, payload_of, write_raw_response, check_response,
  read_response, max_rpc_chunk,
}

-- The tests of readResponse on what the server makes.
accepted :
    (marshal : Response → Option Bytes) (text : Error → Bytes) (id : ℤ) (result data' : Bytes)
    (e : Option Error)
    → nonpositive id ≡ false
    → length data' ≤ max_rpc_chunk
    → let r = response_of marshal text id result (length (payload_of marshal text data' e)) e in
      check_response r ≡ ok r
unfolding check_response response_of
accepted marshal text id result data' none h k = ground (arith, h)
accepted marshal text id result data' (some e) h k = ground (arith, h)

module _ (marshal : Response → Option Bytes) (text : Error → Bytes) (id : ℤ) (result data' : Bytes)
    (e : Option Error) where
  -- The response that is written, and the payload behind it.
  abbrev pub payload : Bytes
  payload = payload_of marshal text data' e

  abbrev pub written : Response
  written = response_of marshal text id result (length payload) e

  written_lem :
      (encoded : Bytes)
      → marshal written ≡ some encoded
      → length encoded < max_rpc_frame
      → length data' ≤ max_rpc_chunk
      → write_raw_response marshal text id result data' e ≡ ok (encoded ++ (10 ∷ payload))
  unfolding write_raw_response encode_response
  written_lem encoded m l k =
      let big : ltb max_rpc_chunk (length data') ≡ false = ground arith in
      let long : ltb max_rpc_frame (length encoded + 1) ≡ false = ground arith in
      rw (big, m, long, write_raw_response, encode_response) refl

  -- Any response with a header within the limit and at most 64 KiB of payload is read as the one
  -- that was written, whatever the size of the reader's buffer, and the stream is left at its
  -- payload, if the JSON of a response is one line and is read back.
  pub read_response-write_raw_response :
      (unmarshal : Bytes → Option Response) (size : ℕ) (ended : Error) (encoded rest : Bytes)
      → 0 < size
      → nonpositive id ≡ false
      → length data' ≤ max_rpc_chunk
      → marshal written ≡ some encoded
      → Avoids 10 encoded
      → length encoded < max_rpc_frame
      → unmarshal (encoded ++ (10 ∷ [])) ≡ some written
      → (write_raw_response marshal text id result data' e ≡ ok (encoded ++ (10 ∷ payload)))
        × (read_response unmarshal size ended (encoded ++ (10 ∷ (payload ++ rest)))
            ≡ some (ok (written, payload ++ rest)))
  unfolding read_response
  read_response-write_raw_response unmarshal size ended encoded rest s h k m a l u =
      let stream = encoded ++ (10 ∷ (payload ++ rest)) in
      (
        written_lem encoded m l k,
        rw
            (
              read_line_exact (suc (length stream)) max_rpc_frame size ended [] encoded
                  (payload ++ rest) s a
                  (omega (arith, length-append encoded (10 ∷ (payload ++ rest)))),
              short encoded l,
              u,
              accepted marshal text id result data' e h k,
              read_response,
            )
            refl,
      )
