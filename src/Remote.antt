-- ===== src/Remote.antt =====
-- server.go and client.go: what a server and a client say to each other once a connection is
-- open, as the responses that readResponse gives. How a value is encoded in JSON is a parameter.
pub mod Blob
pub mod BlobClient
pub mod Dispatch
pub mod Output
pub mod Calls
pub mod Diagnostics
mod Whole
mod Kept
mod Delivered
pub mod RemoteSession
mod Transparent
mod Codecs
mod Examples
use ghostline.Prelude.{
  ℕ, zero, suc, Bool, true, false, not, ◌&&◌, ◌||◌, ◌≡◌, Option, none, some, List, [], ◌∷◌, ◌++◌,
  Bytes, length, ltb, if◌then◌else◌,
}
use ghostline.Prelude.Int.{ℤ, pos, negsuc, int_eq}
use ghostline.Errors.{Error, failure, Result, ok, err}
use ghostline.Size.{Size, zero_size, size_eq}
use ghostline.Output.Cursor.{Cursor}
use ghostline.Rpc.{RpcError, new_rpc_error, decode_rpc_error, ascii, wire_version}
use ghostline.Rpc.Responses.{Response}

-- encoding/json, for one type.
pub record Codec (A : Type 0) : Type 0 where
  pub encode : A → Bytes
  pub decode : Bytes → Option A

abbrev pub IsCodec : {A : Type 0} → Codec A → Type 0
IsCodec {A} c = (a : A) → c.decode (c.encode a) ≡ some a

pub record ChunkReadParams : Type 0 where
  pub max_bytes : ℤ
  pub sized : Bool

pub record BlobReadResult : Type 0 where
  pub eof : Bool

pub record BlobOpenResult : Type 0 where
  pub size : ℤ
  pub cursor : Cursor
  pub format : Bytes
  pub grid : Option Size

pub record OutputReadResult : Type 0 where
  pub cursor : Cursor
  pub eof : Bool
  pub size : Option Size

-- A response with the payload behind it.
pub record Reply : Type 0 where
  pub response : Response
  pub payload : Bytes

abbrev pub answer : ℤ → Bytes → Bytes → Reply
answer id result payload = record {
  response = record {
    wire = wire_version;
    id = id;
    result = result;
    error = none;
    payload_bytes = pos (length payload);
  };
  payload = payload;
}

abbrev pub refusal : (Error → Bytes) → ℤ → Error → Reply
refusal text id e = record {
  response = record {
    wire = wire_version;
    id = id;
    result = [];
    error = some (new_rpc_error text e);
    payload_bytes = pos 0;
  };
  payload = [];
}

-- A size that is not known is left out.
abbrev pub grid_of : Size → Option Size
grid_of s = if size_eq s zero_size then none else some s

abbrev pub size_of_grid : Option Size → Size
size_of_grid none = zero_size
size_of_grid (some s) = s

-- What the client makes of a response's error.
abbrev pub error_of : Option RpcError → Error
error_of e = elim (decode_rpc_error e) [ none ↦ failure [] | some known ↦ known ]

-- The tests of a response that every call makes: its ID and its error.
unfoldable pub check_reply : ℤ → Reply → Result Reply
check_reply id r =
    if not (int_eq r.response.id id)
    then err (failure [])
    else elim r.response.error [ some e ↦ err (error_of (some e)) | none ↦ ok r ]
