-- ===== src/Rpc/Requests.antt =====
-- rpc.go: a request frame is read exactly.
use ghostline.Prelude.{
  ℕ, suc, ◌≤◌, ◌<◌, ◌≡◌, refl, ap, ◌∙◌, true, false, not, ◌||◌, [], ◌∷◌, ◌++◌, Bytes, length,
  Option, some, ◌==◌, ltb, leb, arith, length-append, take-append_length, drop-append_all,
}
use ghostline.Prelude.Int.{pos, int_eq, nonpositive}
use ghostline.Errors.{Error, ok}
use ghostline.Text.Split.{Avoids}
use ghostline.Rpc.{
  Request, read_full, read_payload, read_request, wire_version, max_rpc_frame, max_rpc_payload,
  is_negative, to_nat,
}
use ghostline.Rpc.Lines.{read_line_exact}

-- The header of a request that the server takes, with a payload of n bytes.
abbrev pub IsHeader : Request → ℕ → Type 0
IsHeader r n =
    (r.wire ≡ wire_version)
    × (nonpositive r.id ≡ false)
    × (0 < length r.method)
    × (r.payload_bytes ≡ pos n)
    × (n ≤ max_rpc_payload)

fits : (bytes rest : Bytes) → leb (length bytes) (length (bytes ++ rest)) ≡ true
fits bytes rest = ground (arith, length-append bytes rest)

read_full-append :
    (ended : Error) (bytes rest : Bytes)
    → read_full ended (length bytes) (bytes ++ rest) ≡ ok (bytes, rest)
unfolding read_full
read_full-append ended bytes rest =
    rw (fits bytes rest, take-append_length bytes rest, drop-append_all bytes rest, read_full) refl

-- What readRequest gives for a header: no payload is read for a length of zero.
abbrev pub with_payload : Request → Bytes → Request
with_payload r [] = r
with_payload r (b ∷ bytes) = record r { payload = b ∷ bytes }

positive : (n : ℕ) → ltb 0 (suc n) ≡ true
positive n = ground arith

-- The tests that a header passes.
accepted :
    (r : Request) (n : ℕ)
    → IsHeader r n
    → (not (int_eq r.wire wire_version) ≡ false)
      × ((nonpositive r.id || (length r.method == 0)) ≡ false)
      × ((is_negative r.payload_bytes || ltb max_rpc_payload (to_nat r.payload_bytes)) ≡ false)
      × (to_nat r.payload_bytes ≡ n)
accepted r n (wire, id, method, payload, small) = (
  ap (λ w. not (int_eq w wire_version)) wire,
  ground arith,
  ap (λ p. is_negative p || ltb max_rpc_payload (to_nat p)) payload ∙ ground arith,
  ap to_nat payload,
)

read_payload-append :
    (ended : Error) (r : Request) (bytes rest : Bytes)
    → IsHeader r (length bytes)
    → read_payload ended r (bytes ++ rest) ≡ ok (with_payload r bytes, rest)
unfolding read_payload
read_payload-append ended r [] rest h =
    let (known, named, allowed, n) = accepted r 0 h in
    rw (known, named, allowed, n, read_payload) refl
read_payload-append ended r (b ∷ bytes) rest h =
    let (known, named, allowed, n) = accepted r (length (b ∷ bytes)) h in
    rw
      (
        known,
        named,
        allowed,
        n,
        positive (length bytes),
        read_full-append ended (b ∷ bytes) rest,
        read_payload,
      )
      refl

pub short :
    (text : Bytes)
    → length text < max_rpc_frame
    → ltb max_rpc_frame (length (text ++ (10 ∷ []))) ≡ false
short text h = ground (arith, length-append text (10 ∷ []))

-- A frame of a header line within the limit and of as many bytes as the header declares, at
-- most 1 MiB, is read as the request with these bytes, and the stream is left behind them,
-- whatever the size of the reader's buffer.
pub read_request_frame :
    (unmarshal : Bytes → Option Request) (size : ℕ) (ended : Error) (text bytes rest : Bytes)
    (r : Request)
    → 0 < size
    → Avoids 10 text
    → length text < max_rpc_frame
    → unmarshal (text ++ (10 ∷ [])) ≡ some r
    → IsHeader r (length bytes)
    → read_request unmarshal size ended (text ++ (10 ∷ (bytes ++ rest)))
      ≡ some (ok (with_payload r bytes, rest))
unfolding read_request
read_request_frame unmarshal size ended text bytes rest r s a l u h =
    let stream = text ++ (10 ∷ (bytes ++ rest)) in
    rw
      (
        read_line_exact (suc (length stream)) max_rpc_frame size ended [] text (bytes ++ rest) s a
            (omega (arith, length-append text (10 ∷ (bytes ++ rest)))),
        short text l,
        u,
        read_payload-append ended r bytes rest h,
        read_request,
      )
      refl
