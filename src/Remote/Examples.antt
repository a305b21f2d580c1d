-- ===== src/Remote/Examples.antt =====
-- Tests and witnesses for a client and a server.
use ghostline.Prelude.{
  ◌++◌, ℕ, ◌≡◌, refl, true, false, Option, none, some, List, [], ◌∷◌, Bytes, arith, bytes_eq,
  if◌then◌else◌,
}
use ghostline.Prelude.Int.{pos}
use ghostline.Errors.{
  Error, Result, eof, os_error, session_not_found, invalid_signal, invalid_cursor, ok, err,
}
use ghostline.Size.{Size, zero_size}
use ghostline.Hub.{SessionOptions}
use ghostline.Output.Cursor.{Cursor}
use ghostline.Session.Local.{native, Status}
use ghostline.Rpc.{Request, ascii, new_rpc_error}
use ghostline.Remote.{error_of}
use ghostline.Remote.Codecs.{
  chunk_params, chunk_params-IsCodec, blob_reads, blob_reads-IsCodec, blob_opens,
  blob_opens-IsCodec, output_results, output_results-IsCodec, texts, texts-IsJson, resizes,
  resizes-IsJson, signals, signals-IsJson, prunes, prunes-IsJson, infos, infos-IsJson, sizes,
  sizes-IsJson, cursors, cursors-IsJson, statuses, statuses-IsJson,
}
use ghostline.Remote.Blob.{Blob, atomic_state_format}
use ghostline.Remote.BlobClient.{read_blob}
use ghostline.Remote.Whole.{remote_result, read_blob-whole}
use ghostline.Remote.Diagnostics.{write_all, max_daemon_diagnostics}
use ghostline.Remote.Kept.{concat, last_bytes, write_all-kept}
use ghostline.Remote.Output.{RemoteReader, serve_read, remote_read, nothing_but}
use ghostline.Remote.{grid_of}
use ghostline.Remote.Delivered.{remote_read-chunk}
use ghostline.Remote.Dispatch.{Backend, Codecs, SessionInfo}
use ghostline.Remote.RemoteSession.{
  AreJson, create_params, remote_start, remote_status, remote_size, remote_signal,
  remote_write_input, remote_resize, remote_output_cursor, remote_rotate_output,
  remote_prune_output, remote_terminate, remote_delete,
}
use ghostline.Remote.Transparent.{
  seen, sent, is_sendable, no_value, on_session, remote_session-local,
}

abbrev no_text : Error → Bytes
no_text e = ascii "text"

abbrev wide : Size
wide = record { columns = pos 120; rows = pos 36 }

abbrev snapshot : Blob
snapshot = record {
  content = ascii "screen";
  cursor = record { generation = 2; offset = 5 };
  format = atomic_state_format;
  grid = wide;
}

read_blob-whole_example :
    read_blob blob_opens chunk_params blob_reads no_text 9 (ok snapshot)
    ≡ some (remote_result no_text (ok snapshot))
read_blob-whole_example =
    read_blob-whole no_text blob_opens chunk_params blob_reads blob_opens-IsCodec
      chunk_params-IsCodec blob_reads-IsCodec 9 (ok snapshot) (omega arith)

abbrev startup : List Bytes
startup = ascii "starting" ∷ ascii "ready" ∷ []

write_all-kept_example : write_all [] startup ≡ last_bytes max_daemon_diagnostics (concat startup)
write_all-kept_example = write_all-kept startup

abbrev second : Cursor
second = record { generation = 2; offset = 7 }

abbrev reader : RemoteReader
reader = record { cursor = record { generation = 2; offset = 5 }; closed = false }

abbrev moved : RemoteReader
moved = record reader { cursor = second }

abbrev failed : Error
failed = os_error 5

remote_read-chunk_example :
    (remote_read output_results 4 true
        (ok (serve_read no_text output_results (pos 1) second (8 ∷ 9 ∷ []) wide none).0)
        reader
      ≡ (moved, record { bytes = 8 ∷ 9 ∷ []; size = wide; error = none }))
    × (remote_read output_results 4 true
          (ok (serve_read no_text output_results (pos 1) second [] wide (some eof)).0)
          reader
        ≡ (moved, nothing_but eof))
    × (remote_read output_results 4 true
          (ok (serve_read no_text output_results (pos 1) second [] wide (some failed)).0)
          reader
        ≡ (reader, nothing_but (error_of (some (new_rpc_error no_text failed)))))
remote_read-chunk_example =
    remote_read-chunk no_text output_results 4 true second
      (λ at_end size.
        output_results-IsCodec (record { cursor = second; eof = at_end; size = grid_of size }))
      reader refl 8 (9 ∷ []) [] wide failed (omega arith) (omega arith) (omega arith)
      (λ e. absurd (cc))

-- A server with one session, of which only the size is kept.
abbrev here : Bytes
here = ascii "here"

abbrev one_session : Backend Size
one_session = record {
  start = λ o w. (o.size, ok (record { name = o.name; created_at = 1 }));
  get = λ name w. if bytes_eq name here then ok 4 else err session_not_found;
  info = λ s w. record { name = here; created_at = 1 };
  status = λ s w. ok (record { alive = true; exit = none });
  metadata = λ s w. ok [];
  size = λ s w. ok w;
  signal = λ s signal w. (w, some invalid_signal);
  terminate = λ s w. (w, none);
  delete = λ s w. (zero_size, none);
  write_input = λ s input w. (w, none);
  resize = λ s size w. (size, none);
  rotate_output = λ s w. (w, ok second);
  output_cursor = λ s w. ok second;
  prune_output = λ s before w. (w, some invalid_cursor);
  list = λ w. ok [];
  version = [];
}

abbrev options : SessionOptions
options = record {
  name = here;
  process = record {
    path = [];
    args = [];
    directory = [];
    environment = [];
    shell_command = ascii "top";
  };
  size = wide;
  scrollback_max_bytes = 0;
}

-- The encoding of the parameters of a start knows the ones of the example.
abbrev codecs : Codecs
codecs = record {
  names = texts;
  creates = record { encode = λ p. 0 ∷ []; decode = λ bytes. some (create_params options) };
  inputs = texts;
  resizes = resizes;
  signals = signals;
  prunes = prunes;
  infos = infos;
  statuses = statuses;
  sizes = sizes;
  cursors = cursors;
  lists = record { encode = λ l. 0 ∷ []; decode = λ bytes. some [] };
}

abbrev narrow : Size
narrow = record { columns = pos 80; rows = pos 24 }

abbrev here_info : SessionInfo
here_info = record { name = here; created_at = 1 }

abbrev alive : Status
alive = record { alive = true; exit = none }

codecs-AreJson : AreJson one_session codecs here options (pos 2) narrow second wide
codecs-AreJson = record {
  names_json = texts-IsJson.back here;
  inputs_json = texts-IsJson.back here;
  creates_json = refl;
  signals_json = signals-IsJson.back (record { name = here; signal = pos 2 });
  resizes_json = resizes-IsJson.back (record { name = here; cols = pos 80; rows = pos 24 });
  prunes_json = prunes-IsJson.back (record { name = here; before = second });
  infos_json = (infos-IsJson.back here_info, infos-IsJson.nonempty here_info);
  statuses_json = λ s. (statuses-IsJson.back alive, statuses-IsJson.nonempty alive);
  sizes_json = λ s. (sizes-IsJson.back wide, sizes-IsJson.nonempty wide);
  cursors_json = λ s. (cursors-IsJson.back second, cursors-IsJson.nonempty second);
  rotates_json = λ s. (cursors-IsJson.back second, cursors-IsJson.nonempty second);
}

-- The header of a request, of which only the length counts.
abbrev header : Request → Bytes
header r = r.method ++ r.params

remote_session-local_example :
    let b = one_session in
    let on = λ (call : ℕ → Size × Option Error).
      on_session b codecs no_text header here
        (λ s. no_value b codecs no_text header (call s))
        wide in
    let reads = λ (method : Bytes) (call : ℕ → Size × Result Cursor).
      sent b codecs no_text header method
        (texts.encode here)
        []
        wide
        (on_session b codecs no_text header here call wide) in
    let changes = λ (method params payload : Bytes) (call : ℕ → Size × Option Error).
      sent b codecs no_text header method params payload wide (on call) in
    (remote_start b codecs no_text header options wide
      ≡ sent b codecs no_text header
          (ascii "create")
          (0 ∷ [])
          []
          wide
          ((b.start options wide).0, seen no_text (b.start options wide).1))
    × (remote_status b codecs no_text header here wide
        ≡ sent b codecs no_text header
            (ascii "status")
            (texts.encode here)
            []
            wide
            (on_session b codecs no_text header here (λ s. (wide, b.status s wide)) wide))
    × (remote_size b codecs no_text header here wide
        ≡ sent b codecs no_text header
            (ascii "size")
            (texts.encode here)
            []
            wide
            (on_session b codecs no_text header here (λ s. (wide, b.size s wide)) wide))
    × (remote_output_cursor b codecs no_text header here wide
        ≡ reads (ascii "output.cursor") (λ s. (wide, b.output_cursor s wide)))
    × (remote_rotate_output b codecs no_text header here wide
        ≡ reads (ascii "output.rotate") (λ s. b.rotate_output s wide))
    × (remote_terminate b codecs no_text header here wide
        ≡ changes (ascii "terminate") (texts.encode here) [] (λ s. b.terminate s wide))
    × (remote_delete b codecs no_text header here wide
        ≡ changes (ascii "delete") (texts.encode here) [] (λ s. b.delete s wide))
    × (remote_signal b codecs no_text header here (pos 2) wide
        ≡ changes
            (ascii "signal")
            (signals.encode (record { name = here; signal = pos 2 }))
            []
            (λ s. b.signal s (native (pos 2)) wide))
    × (remote_write_input b codecs no_text header here (7 ∷ []) wide
        ≡ changes
            (ascii "writeInput")
            (texts.encode here)
            (7 ∷ [])
            (λ s. b.write_input s (7 ∷ []) wide))
    × (remote_resize b codecs no_text header here narrow wide
        ≡ changes
            (ascii "resize")
            (resizes.encode (record { name = here; cols = pos 80; rows = pos 24 }))
            []
            (λ s. b.resize s narrow wide))
    × (remote_prune_output b codecs no_text header here second wide
        ≡ changes
            (ascii "output.prune")
            (prunes.encode (record { name = here; before = second }))
            []
            (λ s. b.prune_output s second wide))
remote_session-local_example =
    remote_session-local one_session codecs no_text header here options (pos 2) (7 ∷ []) narrow
      second wide codecs-AreJson

-- The input reaches the session.
remote_write_input_test :
    is_sendable one_session codecs no_text header (ascii "writeInput") (texts.encode here) (7 ∷ [])
    ≡ true
remote_write_input_test = refl
