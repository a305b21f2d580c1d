-- ===== src/Session/Adopt.antt =====
-- process.go: taking over a session of another server. Where the code fails, what it was given
-- stays with the caller, and what it acquired goes.
use ghostline.Prelude.{ℕ, Bool, false, not, Option, none, some, List, [], ◌∷◌, Bytes, if◌then◌else◌}
use ghostline.Prelude.Int.{ℤ}
use ghostline.Errors.{Error, Result, ok, err}
use ghostline.Size.{Size}
use ghostline.Output.Log.{Log, close}
use ghostline.Output.Marks.{mark_size}
use ghostline.Output.Open.{DirEntry, adopt_output_log}
use ghostline.Session.{Emulator, Session, ExitError, WaitError, known, unknown_exit}
use ghostline.Session.Start.{
  Held, CreateAnswer, holds_terminal, closes_terminal, holds_log, closes_log, holds_pipe,
  create_output_log, discard_log, new_handoff,
}

-- What the other server tells of the session.
pub record Adopted : Type 0 where
  pub name : Bytes
  pub has_master : Bool
  pub size : Size
  pub directory : Bytes
  pub generation : ℕ
  pub pid : ℤ
  pub exit : Option ExitError

pub record AdoptAnswers (V : Type 0) : Type 0 where
  pub opened : Result ℕ
  pub listed : Result (List DirEntry)
  pub files : ℕ → Bytes
  pub created : CreateAnswer
  pub new_terminal : Result V
  pub restored : Result V  -- the new terminal with the snapshot in it
  pub pipe : Option Error

abbrev pub exit_known : Option ExitError → WaitError
exit_known none = unknown_exit
exit_known (some exit) = known exit

-- A caller that closes what it acquired where a callee fails.
module _ {V : Type 0} where
  abbrev pub or_close_terminal : Held × Result (Session V) → Held × Result (Session V)
  or_close_terminal (u, err e) = (closes_terminal u, err e)
  or_close_terminal (u, ok s) = (u, ok s)

  abbrev pub or_close_log : Held × Result (Session V) → Held × Result (Session V)
  or_close_log (u, err e) = (closes_log u, err e)
  or_close_log (u, ok s) = (u, ok s)

  abbrev pub or_discard_log : Held × Result (Session V) → Held × Result (Session V)
  or_discard_log (u, err e) = (discard_log u, err e)
  or_discard_log (u, ok s) = (u, ok s)

  abbrev pub replayed : Emulator V → Bytes → V → V
  replayed m [] fresh = fresh
  replayed m (b ∷ rest) fresh = m.feed (b ∷ rest) fresh

module _ {V : Type 0} (identity : ℕ) (a : AdoptAnswers V) (d : Adopted) where
  abbrev pub adopted_session : V → Log → Session V
  adopted_session terminal l = record {
    name = d.name;
    identity = identity;
    has_command = false;
    pid = d.pid;
    has_master = d.has_master;
    has_wake = d.has_master;
    size = d.size;
    output = if d.has_master then mark_size d.size l else close none l;
    terminal = terminal;
    wait_error = if d.has_master then none else some (exit_known d.exit);
    reaped = not d.has_master;
    closed_once = false;
    handoff = new_handoff d.has_master (not d.has_master);
  }

  -- adoptStateWithTerminal
  unfoldable pub adopt_with_terminal : V → Log → Held → Held × Result (Session V)
  adopt_with_terminal terminal l u =
      if not d.has_master then (closes_log u, ok (adopted_session terminal l)) else elim a.pipe [
        | some e ↦ (u, err e)
        | none ↦ (holds_pipe u, ok (adopted_session terminal l))
      ]

  -- adoptStateWithOutput
  unfoldable pub adopt_with_output : Log → Held → Held × Result (Session V)
  unfolding adopt_with_terminal
  adopt_with_output l u = elim a.new_terminal [
    | err e ↦ (u, err e)
    | ok fresh ↦ elim a.restored [
      | err e ↦ (closes_terminal (holds_terminal u), err e)
      | ok terminal ↦ or_close_terminal (adopt_with_terminal terminal l (holds_terminal u))
    ]
  ]

  -- adoptState
  unfoldable pub adopt_state : Held → Held × Result (Session V)
  unfolding adopt_with_output
  adopt_state u = elim (adopt_output_log a.opened a.listed a.files d.directory d.generation) [
    | err e ↦ (u, err e)
    | ok l ↦ or_close_log (adopt_with_output l (holds_log u))
  ]

  module _ (m : Emulator V) (replay : Bytes) where
    -- adoptLossyState with its log: the emulator is fed the replay, or stays empty.
    unfoldable pub adopt_lossy_with_log : Log → Held → Held × Result (Session V)
    unfolding adopt_with_terminal
    adopt_lossy_with_log l u = elim a.new_terminal [
      | err e ↦ (u, err e)
      | ok fresh ↦
          or_close_terminal (adopt_with_terminal (replayed m replay fresh) l (holds_terminal u))
    ]

    abbrev pub with_created : Held × Result Log → Held × Result (Session V)
    with_created (u, err e) = (u, err e)
    with_created (u, ok l) = or_discard_log (adopt_lossy_with_log l u)

    -- adoptLossyState: where the log cannot be taken over, a fresh one is made.
    unfoldable pub adopt_lossy_state : Held → Held × Result (Session V)
    unfolding adopt_lossy_with_log
    adopt_lossy_state u =
        elim (adopt_output_log a.opened a.listed a.files d.directory d.generation) [
          | ok l ↦ or_close_log (adopt_lossy_with_log l (holds_log u))
          | err e ↦ with_created (create_output_log a.created u)
        ]
