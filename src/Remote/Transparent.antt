-- ===== src/Remote/Transparent.antt =====
-- server.go and client.go: a call on a remote session is the call on the session itself.
use ghostline.Prelude.{
  ℕ, ◌+◌, ◌≡◌, ◌≢◌, refl, ap, ◌∙◌, Bool, true, false, ◌&&◌, Option, none, some, [], ◌∷◌, ◌++◌,
  Bytes, length, ltb, leb, inl, inr, if◌then◌else◌, arith,
}
use ghostline.Prelude.Int.{ℤ, pos}
use ghostline.Errors.{frame_too_large, Error, Result, Result-cases, ok, err}
use ghostline.Size.{Size, zero_size}
use ghostline.Output.Cursor.{Cursor, zero_cursor}
use ghostline.Hub.{SessionOptions}
use ghostline.Session.Local.{native}
use ghostline.Rpc.{Request, new_rpc_error, max_rpc_frame, max_rpc_payload, ascii}
use ghostline.Remote.{Codec, answer, refusal, error_of, check_reply}
use ghostline.Remote.Calls.{
  Called, fails, returns, plain, accept_reply, CallError, write_request_payload,
}
use ghostline.Remote.Dispatch.{
  Backend, Codecs, SignalParams, ResizeParams, PruneParams, dispatch, dispatch_change,
  dispatch_read, handle, with_session, no_result, with_result, reply_of,
}
use ghostline.Remote.RemoteSession.{
  GivesJson, AreJson, request_of, exchange, exchanged, decoded, without_result, unmarshal,
  create_params, no_info, no_status, remote_start, remote_status, remote_size, remote_signal,
  remote_write_input, remote_resize, remote_output_cursor, remote_rotate_output,
  remote_prune_output, remote_terminate, remote_delete,
}

-- What a call on the session is to a client: its result, or what its error is in a response.
abbrev pub seen : {A : Type 0} → (Error → Bytes) → Result A → Called A
seen text (ok a) = returns a
seen text (err e) = fails (plain (error_of (some (new_rpc_error text e))))

module _ {W : Type 0} (b : Backend W) (c : Codecs) (text : Error → Bytes)
    (json : Request → Bytes) where
  -- Whether a request is within the limits of a payload and of a header.
  abbrev pub is_sendable : Bytes → Bytes → Bytes → Bool
  is_sendable method params payload =
      leb (length payload) max_rpc_payload
      && leb (length (json (request_of method params payload)) + 1) max_rpc_frame

  -- Outside of them nothing reaches the server.
  abbrev pub sent : {A : Type 0} → Bytes → Bytes → Bytes → W → W × Called A → W × Called A
  sent method params payload w outcome =
      if is_sendable method params payload then outcome else (w, fails (plain frame_too_large))

  abbrev handled : Request → W → W × Called Bytes
  handled q w = let (w', reply) = handle b c text false q w in (w', accept_reply (pos 1) reply)

  tests_lem :
      (x y m n : ℕ) (u v : Result Bytes)
      → (if ltb m x then v else if ltb n y then v else u) ≡ (if leb x m && leb y n then u else v)
  tests_lem x y m n u v = ground arith

  exchanged_lem :
      {A : Type 0} (k : W × Called Bytes → W × Called A) (q : Request) (w : W)
      (outcome : W × Called A) (fits : Bool) (frame : Bytes)
      → ((e : CallError) → k (w, fails e) ≡ (w, fails e))
      → k (handled q w) ≡ outcome
      → k (exchanged b c text json q w (if fits then ok frame else err frame_too_large))
        ≡ (if fits then outcome else (w, fails (plain frame_too_large)))
  exchanged_lem k q w outcome true frame keeps e = e
  exchanged_lem k q w outcome false frame keeps e = keeps (plain frame_too_large)

  send_lem :
      {A : Type 0} (k : W × Called Bytes → W × Called A) (method params payload : Bytes) (w : W)
      (outcome : W × Called A)
      → ((e : CallError) → k (w, fails e) ≡ (w, fails e))
      → k (handled (request_of method params payload) w) ≡ outcome
      → k (exchange b c text json method params payload w) ≡ sent method params payload w outcome
  unfolding write_request_payload
  send_lem k method params payload w outcome keeps e =
      let q = request_of method params payload in
      ap (λ z. k (exchanged b c text json q w z))
        (tests_lem (length payload) (length (json q) + 1) max_rpc_payload max_rpc_frame
          (ok (json q ++ (10 ∷ payload))) (err frame_too_large))
      ∙ exchanged_lem k q w outcome (is_sendable method params payload) (json q ++ (10 ∷ payload))
          keeps e

  accept_answer :
      (result : Bytes) → accept_reply (pos 1) (answer (pos 1) result []) ≡ returns result
  unfolding accept_reply check_reply
  accept_answer result = refl

  accept_refusal :
      (e : Error)
      → accept_reply (pos 1) (refusal text (pos 1) e)
        ≡ fails (plain (error_of (some (new_rpc_error text e))))
  unfolding accept_reply check_reply
  accept_refusal e = refl

  unmarshal_lem :
      {A : Type 0} (results : Codec A) (zero a : A) (bytes : Bytes)
      → bytes ≢ []
      → results.decode bytes ≡ some a
      → unmarshal results zero bytes ≡ returns a
  unmarshal_lem results zero a [] n e = absurd (n refl)
  unmarshal_lem results zero a (byte ∷ bytes) n e = rw (e, unmarshal) refl

  abbrev answered : W × Result Bytes → W × Called Bytes
  answered r = let (w, reply) = reply_of b c text (pos 1) r in (w, accept_reply (pos 1) reply)

  -- A response with a result, and one without.
  decoded_lem :
      {A : Type 0} (results : Codec A) (zero : A) (r : W × Result A)
      → GivesJson results r.1
      → decoded results zero (answered (with_result results r)) ≡ (r.0, seen text r.1)
  decoded_lem results zero (w, ok a) (back, nonempty) =
      rw (accept_answer (results.encode a))
        (ap (λ x. (w, x)) (unmarshal_lem results zero a (results.encode a) nonempty back))
  decoded_lem results zero (w, err e) j = rw (accept_refusal e) refl

  abbrev pub no_value : W × Option Error → W × Result (Unit {0})
  no_value (w, none) = (w, ok tt)
  no_value (w, some e) = (w, err e)

  without_result_lem :
      (r : W × Option Error)
      → without_result (answered (no_result r)) ≡ ((no_value r).0, seen text (no_value r).1)
  without_result_lem (w, none) = rw (accept_answer []) refl
  without_result_lem (w, some e) = rw (accept_refusal e) refl

  -- A call on the session that has the name.
  abbrev pub on_session : {A : Type 0} → Bytes → (ℕ → W × Result A) → W → W × Called A
  on_session name call w = elim (b.get name w) [
    | err e ↦ (w, seen text (err e))
    | ok session ↦ let (w', r) = call session in (w', seen text r)
  ]

  module _ {P : Type 0} (p : P) (name_of : P → Bytes) (w : W) where
    called_lem :
        {A : Type 0} (results : Codec A) (zero : A) (f : P → ℕ → W → W × Result A)
        → ((s : ℕ) → GivesJson results (f p s w).1)
        → decoded results zero (
            answered (with_session b c (some p) name_of (λ q s v. with_result results (f q s v)) w))
          ≡ on_session (name_of p) (λ s. f p s w) w
    called_lem results zero f j = elim (Result-cases (b.get (name_of p) w)) [
      | inl (e, q) ↦ rw (q, with_session, on_session) (decoded_lem results zero (w, err e) tt)
      | inr (session, q) ↦
          rw (q, with_session, on_session) (decoded_lem results zero (f p session w) (j session))
    ]

    called_no_result_lem :
        (f : P → ℕ → W → W × Option Error)
        → without_result
            (answered (with_session b c (some p) name_of (λ q s v. no_result (f q s v)) w))
          ≡ on_session (name_of p) (λ s. no_value (f p s w)) w
    called_no_result_lem f = elim (Result-cases (b.get (name_of p) w)) [
      | inl (e, q) ↦ rw (q, with_session, on_session) (without_result_lem (w, some e))
      | inr (session, q) ↦ rw (q, with_session, on_session) (without_result_lem (f p session w))
    ]

  decoded-fails :
      {A : Type 0} (results : Codec A) (zero : A) (w : W) (e : CallError)
      → decoded results zero (w, fails e) ≡ (w, fails e)
  decoded-fails results zero w e = refl

  without_result-fails : (w : W) (e : CallError) → without_result (w, fails e) ≡ (w, fails e)
  without_result-fails w e = refl

  module _ (name : Bytes) (o : SessionOptions) (signal : ℤ) (input : Bytes) (size : Size)
      (before : Cursor) (w : W) (j : AreJson b c name o signal size before w) where
    abbrev pub named : Bytes
    named = c.names.encode name

    reads_lem :
        (remote_size b c text json name w
          ≡ sent (ascii "size") named [] w (on_session name (λ s. (w, b.size s w)) w))
        × (remote_status b c text json name w
            ≡ sent (ascii "status") named [] w (on_session name (λ s. (w, b.status s w)) w))
        × (remote_output_cursor b c text json name w
            ≡ sent
                (ascii "output.cursor")
                named
                []
                w
                (on_session name (λ s. (w, b.output_cursor s w)) w))
        × (remote_rotate_output b c text json name w
            ≡ sent
                (ascii "output.rotate")
                named
                []
                w
                (on_session name (λ s. b.rotate_output s w) w))
    unfolding remote_size remote_status remote_output_cursor remote_rotate_output handle dispatch
        dispatch_change dispatch_read
    reads_lem = (
      send_lem (decoded c.sizes zero_size) (ascii "size") named [] w _
          (decoded-fails c.sizes zero_size w)
          (rw j.names_json
            (called_lem name (λ x. x) w c.sizes zero_size (λ q h v. (v, b.size h v)) j.sizes_json)),
      send_lem (decoded c.statuses no_status) (ascii "status") named [] w _
          (decoded-fails c.statuses no_status w)
          (rw j.names_json (
            called_lem name (λ x. x) w c.statuses no_status (λ q h v. (v, b.status h v))
              j.statuses_json)),
      send_lem (decoded c.cursors zero_cursor) (ascii "output.cursor") named [] w _
          (decoded-fails c.cursors zero_cursor w)
          (rw j.names_json (
            called_lem name (λ x. x) w c.cursors zero_cursor (λ q h v. (v, b.output_cursor h v))
              j.cursors_json)),
      send_lem (decoded c.cursors zero_cursor) (ascii "output.rotate") named [] w _
          (decoded-fails c.cursors zero_cursor w)
          (rw j.names_json (
            called_lem name (λ x. x) w c.cursors zero_cursor (λ q h v. b.rotate_output h v)
              j.rotates_json)),
    )

    ends_lem :
        (remote_terminate b c text json name w
          ≡ sent
              (ascii "terminate")
              named
              []
              w
              (on_session name (λ s. no_value (b.terminate s w)) w))
        × (remote_delete b c text json name w
            ≡ sent (ascii "delete") named [] w (on_session name (λ s. no_value (b.delete s w)) w))
    unfolding remote_terminate remote_delete handle dispatch dispatch_change dispatch_read
    ends_lem = (
      send_lem without_result (ascii "terminate") named [] w _ (without_result-fails w)
          (rw j.names_json (called_no_result_lem name (λ x. x) w (λ q h v. b.terminate h v))),
      send_lem without_result (ascii "delete") named [] w _ (without_result-fails w)
          (rw j.names_json (called_no_result_lem name (λ x. x) w (λ q h v. b.delete h v))),
    )

    abbrev pub signalled : Bytes
    signalled = c.signals.encode (record { name = name; signal = signal })

    abbrev pub resized : Bytes
    resized = c.resizes.encode (record { name = name; cols = size.columns; rows = size.rows })

    abbrev pub pruned : Bytes
    pruned = c.prunes.encode (record { name = name; before = before })

    changes_lem :
        (remote_signal b c text json name signal w
          ≡ sent
              (ascii "signal")
              signalled
              []
              w
              (on_session name (λ s. no_value (b.signal s (native signal) w)) w))
        × (remote_write_input b c text json name input w
            ≡ sent
                (ascii "writeInput")
                (c.inputs.encode name)
                input
                w
                (on_session name (λ s. no_value (b.write_input s input w)) w))
        × (remote_resize b c text json name size w
            ≡ sent
                (ascii "resize")
                resized
                []
                w
                (on_session name (λ s. no_value (b.resize s size w)) w))
        × (remote_prune_output b c text json name before w
            ≡ sent
                (ascii "output.prune")
                pruned
                []
                w
                (on_session name (λ s. no_value (b.prune_output s before w)) w))
    unfolding remote_signal remote_write_input remote_resize remote_prune_output handle dispatch
        dispatch_change dispatch_read
    changes_lem = (
      send_lem without_result (ascii "signal") signalled [] w _ (without_result-fails w) (
          rw j.signals_json (
            called_no_result_lem {P = SignalParams} (record { name = name; signal = signal })
              (λ q. q.name) w (λ q h v. b.signal h (native q.signal) v))),
      send_lem without_result (ascii "writeInput") (c.inputs.encode name) input w _
          (without_result-fails w)
          (rw j.inputs_json
            (called_no_result_lem name (λ x. x) w (λ q h v. b.write_input h input v))),
      send_lem without_result (ascii "resize") resized [] w _ (without_result-fails w) (
          rw j.resizes_json (
            called_no_result_lem {P = ResizeParams}
              (record { name = name; cols = size.columns; rows = size.rows }) (λ q. q.name) w
              (λ q h v. b.resize h (record { columns = q.cols; rows = q.rows }) v))),
      send_lem without_result (ascii "output.prune") pruned [] w _ (without_result-fails w) (
          rw j.prunes_json (
            called_no_result_lem {P = PruneParams} (record { name = name; before = before })
              (λ q. q.name) w (λ q h v. b.prune_output h q.before v))),
    )

    abbrev pub created : Bytes
    created = c.creates.encode (create_params o)

    start_lem :
        remote_start b c text json o w
        ≡ sent (ascii "create") created [] w ((b.start o w).0, seen text (b.start o w).1)
    unfolding remote_start handle dispatch dispatch_change dispatch_read
    start_lem =
        send_lem (decoded c.infos no_info) (ascii "create") created [] w _
          (decoded-fails c.infos no_info w)
          (rw j.creates_json (decoded_lem c.infos no_info (b.start o w) j.infos_json))

    -- Over a connection that does not fail and takes every response, where the JSON of the call's
    -- parameters and of what it gives is read back: a call on a remote session whose request is
    -- within the limits of a payload and of a header, and that changes the session or asks for
    -- its status, its size or a cursor, does to the server's sessions what the call on the session
    -- of that name does, and gives its result, or what the response carries of its error; starting
    -- a session hands on every option; and a call whose request is beyond a limit fails with
    -- ErrFrameTooLarge and does nothing.
    pub remote_session-local :
        (remote_start b c text json o w
          ≡ sent (ascii "create") created [] w ((b.start o w).0, seen text (b.start o w).1))
        × (remote_status b c text json name w
            ≡ sent (ascii "status") named [] w (on_session name (λ s. (w, b.status s w)) w))
        × (remote_size b c text json name w
            ≡ sent (ascii "size") named [] w (on_session name (λ s. (w, b.size s w)) w))
        × (remote_output_cursor b c text json name w
            ≡ sent
                (ascii "output.cursor")
                named
                []
                w
                (on_session name (λ s. (w, b.output_cursor s w)) w))
        × (remote_rotate_output b c text json name w
            ≡ sent
                (ascii "output.rotate")
                named
                []
                w
                (on_session name (λ s. b.rotate_output s w) w))
        × (remote_terminate b c text json name w
            ≡ sent
                (ascii "terminate")
                named
                []
                w
                (on_session name (λ s. no_value (b.terminate s w)) w))
        × (remote_delete b c text json name w
            ≡ sent (ascii "delete") named [] w (on_session name (λ s. no_value (b.delete s w)) w))
        × (remote_signal b c text json name signal w
            ≡ sent
                (ascii "signal")
                signalled
                []
                w
                (on_session name (λ s. no_value (b.signal s (native signal) w)) w))
        × (remote_write_input b c text json name input w
            ≡ sent
                (ascii "writeInput")
                (c.inputs.encode name)
                input
                w
                (on_session name (λ s. no_value (b.write_input s input w)) w))
        × (remote_resize b c text json name size w
            ≡ sent
                (ascii "resize")
                resized
                []
                w
                (on_session name (λ s. no_value (b.resize s size w)) w))
        × (remote_prune_output b c text json name before w
            ≡ sent
                (ascii "output.prune")
                pruned
                []
                w
                (on_session name (λ s. no_value (b.prune_output s before w)) w))
    remote_session-local =
        let r = reads_lem in
        let e = ends_lem in
        let x = changes_lem in (start_lem, r.1, r.0, r.2, r.3, e.0, e.1, x.0, x.1, x.2, x.3)
