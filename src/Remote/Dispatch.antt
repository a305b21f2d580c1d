-- ===== src/Remote/Dispatch.antt =====
-- server.go: dispatch, the calls of a connection that are answered at once. What the hub and its
-- sessions do is an interface: `W` is their state, and a handle is what a lookup of a name gives.
use ghostline.Prelude.{
  ℕ, Bool, not, ◌&&◌, Option, none, some, List, [], Bytes, length, ◌==◌, bytes_eq, if◌then◌else◌,
}
use ghostline.Prelude.Int.{ℤ}
use ghostline.Errors.{Error, failure, canceled, Result, ok, err}
use ghostline.Size.{Size}
use ghostline.Hub.{SessionOptions}
use ghostline.Output.Cursor.{Cursor}
use ghostline.Session.Local.{Status, OsSignal, native}
use ghostline.Rpc.{ascii, Request}
use ghostline.Remote.{Codec, Reply, answer, refusal}

-- SessionInfo
pub record SessionInfo : Type 0 where
  pub name : Bytes
  pub created_at : ℕ

pub record Backend (W : Type 0) : Type 0 where
  pub start : SessionOptions → W → W × Result SessionInfo
  pub get : Bytes → W → Result ℕ
  pub info : ℕ → W → SessionInfo
  pub status : ℕ → W → Result Status
  pub metadata : ℕ → W → Result Bytes  -- encoded
  pub size : ℕ → W → Result Size
  pub signal : ℕ → OsSignal → W → W × Option Error
  pub terminate : ℕ → W → W × Option Error
  pub delete : ℕ → W → W × Option Error
  pub write_input : ℕ → Bytes → W → W × Option Error
  pub resize : ℕ → Size → W → W × Option Error
  pub rotate_output : ℕ → W → W × Result Cursor
  pub output_cursor : ℕ → W → Result Cursor
  pub prune_output : ℕ → Cursor → W → W × Option Error
  pub list : W → Result (List SessionInfo)
  pub version : Bytes  -- encoded

pub record CreateParams : Type 0 where
  pub name : Bytes
  pub dir : Bytes
  pub path : Bytes
  pub args : List Bytes
  pub shell_command : Bytes
  pub cols : ℤ
  pub rows : ℤ
  pub env : List Bytes
  pub vt_scrollback_max_bytes : ℕ

pub record ResizeParams : Type 0 where
  pub name : Bytes
  pub cols : ℤ
  pub rows : ℤ

pub record SignalParams : Type 0 where
  pub name : Bytes
  pub signal : ℤ

pub record PruneParams : Type 0 where
  pub name : Bytes
  pub before : Cursor

-- The JSON of the parameters and results.
pub record Codecs : Type 0 where
  pub names : Codec Bytes
  pub creates : Codec CreateParams
  pub inputs : Codec Bytes
  pub resizes : Codec ResizeParams
  pub signals : Codec SignalParams
  pub prunes : Codec PruneParams
  pub infos : Codec SessionInfo
  pub statuses : Codec Status
  pub sizes : Codec Size
  pub cursors : Codec Cursor
  pub lists : Codec (List SessionInfo)

abbrev pub options_of : CreateParams → SessionOptions
options_of p = record {
  name = p.name;
  process = record {
    path = p.path;
    args = p.args;
    directory = p.dir;
    environment = p.env;
    shell_command = p.shell_command;
  };
  size = record { columns = p.cols; rows = p.rows };
  scrollback_max_bytes = p.vt_scrollback_max_bytes;
}

abbrev pub encoded : {A : Type 0} → Codec A → Result A → Result Bytes
encoded c (err e) = err e
encoded c (ok a) = ok (c.encode a)

-- A call without a result: null, which is left out.
abbrev pub no_result : {W : Type 0} → W × Option Error → W × Result Bytes
no_result (w, none) = (w, ok [])
no_result (w, some e) = (w, err e)

abbrev pub with_result : {W A : Type 0} → Codec A → W × Result A → W × Result Bytes
with_result c (w, r) = (w, encoded c r)

module _ {W : Type 0} (b : Backend W) (c : Codecs) where
  -- decode, the lookup, and the call.
  abbrev pub with_session :
      {A : Type 0} → Option A → (A → Bytes) → (A → ℕ → W → W × Result Bytes) → W → W × Result Bytes
  with_session none name_of call w = (w, err (failure []))
  with_session (some p) name_of call w = elim (b.get (name_of p) w) [
    | err e ↦ (w, err e)
    | ok handle ↦ call p handle w
  ]

  abbrev pub on_named : Bytes → (ℕ → W → W × Result Bytes) → W → W × Result Bytes
  on_named raw call = with_session (c.names.decode raw) (λ name. name) (λ name handle. call handle)

  unfoldable pub create : Option CreateParams → W → W × Result Bytes
  create none w = (w, err (failure []))
  create (some p) w = with_result c.infos (b.start (options_of p) w)

  unfoldable pub await : Bool → ℕ → W → W × Result Bytes
  await canceled_first handle w =
      if canceled_first then (w, err canceled) else (w, encoded c.statuses (b.status handle w))

  -- The methods that change the hub or a session.
  unfoldable pub dispatch_change :
      Bytes → Bytes → Bytes → W → (W → W × Result Bytes) → W × Result Bytes
  unfolding create
  dispatch_change method raw payload w others =
      if bytes_eq method (ascii "create")
      then create (c.creates.decode raw) w
      else if bytes_eq method (ascii "signal")
      then with_session (c.signals.decode raw) (λ p. p.name)
          (λ p handle v. no_result (b.signal handle (native p.signal) v)) w
      else if bytes_eq method (ascii "terminate")
      then on_named raw (λ handle v. no_result (b.terminate handle v)) w
      else if bytes_eq method (ascii "delete")
      then on_named raw (λ handle v. no_result (b.delete handle v)) w
      else if bytes_eq method (ascii "writeInput")
      then with_session (c.inputs.decode raw) (λ name. name)
          (λ name handle v. no_result (b.write_input handle payload v)) w
      else if bytes_eq method (ascii "resize")
      then with_session (c.resizes.decode raw) (λ p. p.name)
          (λ p handle v. no_result (b.resize handle (record { columns = p.cols; rows = p.rows }) v))
          w
      else if bytes_eq method (ascii "output.rotate")
      then on_named raw (λ handle v. with_result c.cursors (b.rotate_output handle v)) w
      else if bytes_eq method (ascii "output.prune")
      then with_session (c.prunes.decode raw) (λ p. p.name)
          (λ p handle v. no_result (b.prune_output handle p.before v)) w
      else others w

  -- The methods that only read.
  unfoldable pub dispatch_read : Bool → Bytes → Bytes → W → W × Result Bytes
  unfolding await
  dispatch_read canceled_first method raw w =
      if bytes_eq method (ascii "version")
      then (w, ok b.version)
      else if bytes_eq method (ascii "created")
      then on_named raw (λ handle v. (v, ok (c.infos.encode (b.info handle v)))) w
      else if bytes_eq method (ascii "status")
      then on_named raw (λ handle v. (v, encoded c.statuses (b.status handle v))) w
      else if bytes_eq method (ascii "metadata")
      then on_named raw (λ handle v. (v, b.metadata handle v)) w
      else if bytes_eq method (ascii "size")
      then on_named raw (λ handle v. (v, encoded c.sizes (b.size handle v))) w
      else if bytes_eq method (ascii "wait")
      then on_named raw (await canceled_first) w
      else if bytes_eq method (ascii "output.cursor")
      then on_named raw (λ handle v. (v, encoded c.cursors (b.output_cursor handle v))) w
      else if bytes_eq method (ascii "list")
      then (w, encoded c.lists (b.list w))
      else (w, err (failure []))

  -- dispatch: `canceled_first` is for wait, whose context ends with the connection.
  unfoldable pub dispatch : Bool → Bytes → Bytes → Bytes → W → W × Result Bytes
  unfolding dispatch_change dispatch_read
  dispatch canceled_first method raw payload w =
      if not (bytes_eq method (ascii "writeInput")) && not (length payload == 0)
      then (w, err (failure []))
      else dispatch_change method raw payload w (dispatch_read canceled_first method raw)

  abbrev pub reply_of : (Error → Bytes) → ℤ → W × Result Bytes → W × Reply
  reply_of text id (w, ok result) = (w, answer id result [])
  reply_of text id (w, err e) = (w, refusal text id e)

  -- What `handle` does with a request that opens no stream and no blob.
  unfoldable pub handle : (Error → Bytes) → Bool → Request → W → W × Reply
  unfolding dispatch
  handle text canceled_first r w =
      reply_of text r.id (dispatch canceled_first r.method r.params r.payload w)
