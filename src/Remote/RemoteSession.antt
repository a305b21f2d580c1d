-- ===== src/Remote/RemoteSession.antt =====
-- client.go: remoteSession, a session on the other side of a connection, against the server in
-- front of a hub. The calls are shown on a connection that does not fail.
use ghostline.Prelude.{ℕ, ◌≡◌, false, none, some, [], ◌∷◌, Bytes, length, ◌≢◌}
use ghostline.Prelude.Int.{ℤ, pos}
use ghostline.Errors.{Error, Result, ok, err, failure}
use ghostline.Size.{Size, zero_size}
use ghostline.Hub.{SessionOptions}
use ghostline.Output.Cursor.{Cursor, zero_cursor}
use ghostline.Session.Local.{Status}
use ghostline.Rpc.{Request, ascii, wire_version}
use ghostline.Remote.{Codec}
use ghostline.Remote.Calls.{Called, fails, returns, plain, accept_reply, write_request_payload}
use ghostline.Remote.Dispatch.{Backend, Codecs, CreateParams, SessionInfo, handle}

-- An encoding of one value that is read back, and is not empty, as JSON is not.
abbrev pub IsJsonOf : {A : Type 0} → Codec A → A → Type 0
IsJsonOf c a = (c.decode (c.encode a) ≡ some a) × (c.encode a ≢ [])

-- What a call gives, where it gives a value, is read back.
abbrev pub GivesJson : {A : Type 0} → Codec A → Result A → Type 0
GivesJson c (err e) = Unit {0}
GivesJson c (ok a) = IsJsonOf c a

-- Client.Start's parameters.
abbrev pub create_params : SessionOptions → CreateParams
create_params o = record {
  name = o.name;
  dir = o.process.directory;
  path = o.process.path;
  args = o.process.args;
  shell_command = o.process.shell_command;
  cols = o.size.columns;
  rows = o.size.rows;
  env = o.process.environment;
  vt_scrollback_max_bytes = o.scrollback_max_bytes;
}

-- The JSON of the parameters of these calls, and of what they give, is read back. Not every value
-- is: a string that is not UTF-8 comes back as another.
pub record AreJson {W : Type 0} (b : Backend W) (c : Codecs) (name : Bytes) (o : SessionOptions)
    (signal : ℤ) (size : Size) (before : Cursor) (w : W) : Type 0 where
  pub names_json : c.names.decode (c.names.encode name) ≡ some name
  pub inputs_json : c.inputs.decode (c.inputs.encode name) ≡ some name
  pub creates_json : c.creates.decode (c.creates.encode (create_params o)) ≡ some (create_params o)
  pub signals_json :
      c.signals.decode (c.signals.encode (record { name = name; signal = signal }))
      ≡ some (record { name = name; signal = signal })
  pub resizes_json :
      c.resizes.decode
        (c.resizes.encode (record { name = name; cols = size.columns; rows = size.rows }))
      ≡ some (record { name = name; cols = size.columns; rows = size.rows })
  pub prunes_json :
      c.prunes.decode (c.prunes.encode (record { name = name; before = before }))
      ≡ some (record { name = name; before = before })
  pub infos_json : GivesJson c.infos (b.start o w).1
  pub statuses_json : (s : ℕ) → GivesJson c.statuses (b.status s w)
  pub sizes_json : (s : ℕ) → GivesJson c.sizes (b.size s w)
  pub cursors_json : (s : ℕ) → GivesJson c.cursors (b.output_cursor s w)
  pub rotates_json : (s : ℕ) → GivesJson c.cursors (b.rotate_output s w).1

-- The end of callOncePayload: an empty result leaves the caller's zero value.
abbrev pub unmarshal : {A : Type 0} → Codec A → A → Bytes → Called A
unmarshal c zero [] = returns zero
unmarshal c zero (byte ∷ rest) = elim (c.decode (byte ∷ rest)) [
  | none ↦ fails (plain (failure []))
  | some a ↦ returns a
]

abbrev pub decoded : {W A : Type 0} → Codec A → A → W × Called Bytes → W × Called A
decoded c zero (w, fails e) = (w, fails e)
decoded c zero (w, returns result) = (w, unmarshal c zero result)

-- Without a result to decode.
abbrev pub without_result : {W : Type 0} → W × Called Bytes → W × Called (Unit {0})
without_result (w, fails e) = (w, fails e)
without_result (w, returns result) = (w, returns tt)

abbrev pub no_info : SessionInfo
no_info = record { name = []; created_at = 0 }

abbrev pub no_status : Status
no_status = record { alive = false; exit = none }

abbrev pub request_of : Bytes → Bytes → Bytes → Request
request_of method params payload = record {
  wire = wire_version;
  id = pos 1;
  method = method;
  params = params;
  payload_bytes = pos (length payload);
  payload = payload;
}

-- `json` is the encoding of a request's header.
module _ {W : Type 0} (b : Backend W) (c : Codecs) (text : Error → Bytes)
    (json : Request → Bytes) where
  abbrev pub exchanged : Request → W → Result Bytes → W × Called Bytes
  exchanged r w (err e) = (w, fails (plain e))
  exchanged r w (ok frame) =
      let (w', reply) = handle b c text false r w in (w', accept_reply (pos 1) reply)

  -- callOncePayload: a request that writeRequestPayload refuses does not reach the server.
  abbrev pub exchange : Bytes → Bytes → Bytes → W → W × Called Bytes
  exchange method params payload w =
      let r = request_of method params payload in
      exchanged r w (write_request_payload (λ q. some (json q)) r payload)

  unfoldable pub remote_start : SessionOptions → W → W × Called SessionInfo
  remote_start o w =
      decoded c.infos no_info (exchange (ascii "create") (c.creates.encode (create_params o)) [] w)

  unfoldable pub remote_status : Bytes → W → W × Called Status
  remote_status name w =
      decoded c.statuses no_status (exchange (ascii "status") (c.names.encode name) [] w)

  unfoldable pub remote_size : Bytes → W → W × Called Size
  remote_size name w =
      decoded c.sizes zero_size (exchange (ascii "size") (c.names.encode name) [] w)

  unfoldable pub remote_signal : Bytes → ℤ → W → W × Called (Unit {0})
  remote_signal name signal w =
      without_result (
        exchange (ascii "signal") (c.signals.encode (record { name = name; signal = signal })) [] w)

  unfoldable pub remote_write_input : Bytes → Bytes → W → W × Called (Unit {0})
  remote_write_input name input w =
      without_result (exchange (ascii "writeInput") (c.inputs.encode name) input w)

  unfoldable pub remote_resize : Bytes → Size → W → W × Called (Unit {0})
  remote_resize name size w = without_result (
      exchange (ascii "resize")
        (c.resizes.encode (record { name = name; cols = size.columns; rows = size.rows })) [] w)

  unfoldable pub remote_output_cursor : Bytes → W → W × Called Cursor
  remote_output_cursor name w =
      decoded c.cursors zero_cursor (exchange (ascii "output.cursor") (c.names.encode name) [] w)

  unfoldable pub remote_rotate_output : Bytes → W → W × Called Cursor
  remote_rotate_output name w =
      decoded c.cursors zero_cursor (exchange (ascii "output.rotate") (c.names.encode name) [] w)

  unfoldable pub remote_prune_output : Bytes → Cursor → W → W × Called (Unit {0})
  remote_prune_output name before w = without_result (
      exchange (ascii "output.prune") (c.prunes.encode (record { name = name; before = before })) []
        w)

  unfoldable pub remote_terminate : Bytes → W → W × Called (Unit {0})
  remote_terminate name w = without_result (exchange (ascii "terminate") (c.names.encode name) [] w)

  unfoldable pub remote_delete : Bytes → W → W × Called (Unit {0})
  remote_delete name w = without_result (exchange (ascii "delete") (c.names.encode name) [] w)
