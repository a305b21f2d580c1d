-- ===== src/Remote/Calls.antt =====
-- client.go: one call of a client, and the calls that are made again once.
use ghostline.Prelude.{
  ℕ, ◌+◌, Bool, true, false, not, ◌||◌, Option, none, some, [], ◌∷◌, ◌++◌, Bytes, length, ltb, ◌==◌,
  if◌then◌else◌,
}
use ghostline.Prelude.Int.{ℤ, pos, int_eq}
use ghostline.Errors.{
  Error, failure, frame_too_large, canceled, eof, unexpected_eof, os_error, Result, ok, err,
}
use ghostline.Rpc.{Request, max_rpc_frame, max_rpc_payload, wire_version}
use ghostline.Remote.{Reply, check_reply}

-- An error of a call: one that the net package wraps, a deadline, or any other.
pub data CallError : Type 0 where
  socket_error : Error → CallError  -- *net.OpError
  deadline_exceeded : CallError
  plain : Error → CallError

abbrev pub errno_epipe : ℕ
errno_epipe = 32

abbrev pub errno_econnreset : ℕ
errno_econnreset = 104

abbrev pub errno_econnrefused : ℕ
errno_econnrefused = 111

unfoldable pub is_transport_error : CallError → Bool
is_transport_error (socket_error e) = true
is_transport_error deadline_exceeded = true
is_transport_error (plain eof) = true
is_transport_error (plain unexpected_eof) = true
is_transport_error (plain (os_error n)) =
    (n == errno_econnreset) || (n == errno_econnrefused) || (n == errno_epipe)
is_transport_error (plain e) = false

-- contextErr
unfoldable pub context_err : Bool → CallError → CallError
context_err context_done e = if context_done then plain canceled else e

pub data Called (A : Type 0) : Type 0 where
  fails : CallError → Called A
  returns : A → Called A

-- writeRequestPayload: what it writes, where the writes do not fail.
unfoldable pub write_request_payload : (Request → Option Bytes) → Request → Bytes → Result Bytes
write_request_payload marshal r payload =
    if ltb max_rpc_payload (length payload)
    then err frame_too_large
    else elim (marshal (record r { wire = wire_version; payload_bytes = pos (length payload) })) [
      | none ↦ err (failure [])
      | some encoded ↦
          if ltb max_rpc_frame (length encoded + 1)
          then err frame_too_large
          else ok (encoded ++ (10 ∷ payload))
    ]

-- What the system and the server give to one call: the error of connecting, that of writing the
-- request, and the response or the error of reading it.
pub record CallAnswers : Type 0 where
  pub dialed : Option CallError
  pub written : Option CallError
  pub received : Called Reply

-- The tests of callOncePayload on the response.
unfoldable pub accept_reply : ℤ → Reply → Called Bytes
accept_reply id reply = elim (check_reply id reply) [
  | err e ↦ fails (plain e)
  | ok checked ↦
      if not (int_eq checked.response.payload_bytes (pos 0))
      then fails (plain (failure []))
      else returns checked.response.result
]

abbrev pub with_context : {A : Type 0} → Bool → Called A → Called A
with_context context_done (fails e) = fails (context_err context_done e)
with_context context_done (returns a) = returns a

abbrev pub accept_received : Called Reply → Called Bytes
accept_received (fails e) = fails e
accept_received (returns reply) = accept_reply (pos 1) reply

-- callOncePayload: the result, still encoded, and whether the request went out whole.
unfoldable pub call_once : Bool → CallAnswers → Called Bytes
call_once context_done a = with_context context_done (elim a.dialed as (λ _. Called Bytes) [
  | some e ↦ fails e
  | none ↦ elim a.written as (λ _. Called Bytes) [
    | some e ↦ fails e
    | none ↦ accept_received a.received
  ]
])

-- What a client that owns its server answers to a failed call: whether the socket is ready, and
-- the error of starting the server again.
pub record Recovery : Type 0 where
  pub managed : Bool
  pub ready : Bool
  pub spawned : Option Error

abbrev pub retried : {A : Type 0} → Recovery → Called A → Called A → CallError → Called A × ℕ
retried r first again e =
    if not r.managed || not (is_transport_error e)
    then (first, 1)
    else if r.ready
    then (first, 1)
    else elim r.spawned [ some f ↦ (fails (plain f), 1) | none ↦ (again, 2) ]

-- callRetryable: the outcome and how many calls were made.
unfoldable pub call_retryable : {A : Type 0} → Recovery → Called A → Called A → Called A × ℕ
call_retryable r (returns a) again = (returns a, 1)
call_retryable r (fails e) again = retried r (fails e) again e
