-- ===== src/Session/Start.antt =====
-- process.go: starting a session. `Held` counts what the process holds of the emulator and the
-- operating system; the answers of both are arguments.
use ghostline.Prelude.{
  ℕ, ◌+◌, ◌-◌, Bool, true, false, not, Option, none, some, List, [], ◌∷◌, Bytes, if◌then◌else◌,
}
use ghostline.Prelude.Int.{ℤ}
use ghostline.Errors.{Error, canceled, Result, ok, err}
use ghostline.Size.{Size}
use ghostline.Hub.{ProcessSpec, is_empty}
use ghostline.Output.Log.{Log}
use ghostline.Output.Marks.{mark_size}
use ghostline.Output.Open.{DirEntry, open_output_log}
use ghostline.Migration.{Handoff, new_migration_ticket}
use ghostline.Environment.{pty_environment}
use ghostline.Session.{Session}

pub record Held : Type 0 where
  pub terminals : ℕ
  pub logs : ℕ  -- logs with an open segment
  pub directories : ℕ  -- directories that this process made for logs
  pub wake_ends : ℕ  -- ends of wake pipes
  pub masters : ℕ

abbrev pub holds_terminal : Held → Held
holds_terminal u = record u { terminals = u.terminals + 1 }

abbrev pub closes_terminal : Held → Held
closes_terminal u = record u { terminals = u.terminals - 1 }

abbrev pub holds_log : Held → Held
holds_log u = record u { logs = u.logs + 1 }

abbrev pub closes_log : Held → Held
closes_log u = record u { logs = u.logs - 1 }

abbrev pub holds_directory : Held → Held
holds_directory u = record u { directories = u.directories + 1 }

-- os.RemoveAll
abbrev pub removes_directory : Held → Held
removes_directory u = record u { directories = u.directories - 1 }

-- outputLog.discard
unfoldable pub discard_log : Held → Held
discard_log u = removes_directory (closes_log u)

abbrev pub holds_pipe : Held → Held
holds_pipe u = record u { wake_ends = u.wake_ends + 2 }

abbrev pub closes_wake_end : Held → Held
closes_wake_end u = record u { wake_ends = u.wake_ends - 1 }

abbrev pub holds_master : Held → Held
holds_master u = record u { masters = u.masters + 1 }

-- What the file system answers when a log is created.
pub record CreateAnswer : Type 0 where
  pub made : Result Bytes  -- os.MkdirTemp
  pub opened : Result ℕ
  pub listed : Result (List DirEntry)

abbrev pub created_log : Held → Result Log → Held × Result Log
created_log u (err e) = (removes_directory (holds_directory u), err e)
created_log u (ok l) = (holds_log (holds_directory u), ok l)

-- createOutputLog
unfoldable pub create_output_log : CreateAnswer → Held → Held × Result Log
create_output_log a u = elim a.made [
  | err e ↦ (u, err e)
  | ok directory ↦ created_log u (open_output_log a.opened a.listed (λ g. []) directory 1)
]

pub record StartAnswers (V : Type 0) : Type 0 where
  pub new_terminal : Result V
  pub created : CreateAnswer
  pub pipe : Option Error
  pub started : Result ℤ  -- pty.StartWithSize: the child's pid

-- What a session starts with.
abbrev pub new_handoff : Bool → Bool → Handoff
new_handoff has_master session_done = record {
  tickets = λ n. new_migration_ticket true;
  next_ticket = 0;
  migration = none;
  session_done = session_done;
  migrated = false;
  master_open = has_master;
  gate = false;
}

abbrev pub new_session : {V : Type 0} → Bytes → ℕ → Size → ℤ → V → Log → Session V
new_session name identity size pid terminal output = record {
  name = name;
  identity = identity;
  has_command = true;
  pid = pid;
  has_master = true;
  has_wake = true;
  size = size;
  output = output;
  terminal = terminal;
  wait_error = none;
  reaped = false;
  closed_once = false;
  handoff = new_handoff true false;
}

module _ {V : Type 0} (name : Bytes) (identity : ℕ) (size : Size) where
  -- The child is started, with the pipe open.
  unfoldable pub start_child : StartAnswers V → V → Log → Held → Held × Result (Session V)
  unfolding discard_log
  start_child a terminal l u = elim a.started [
    | err e ↦ (closes_terminal (discard_log (closes_wake_end (closes_wake_end u))), err e)
    | ok pid ↦ (holds_master u, ok (new_session name identity size pid terminal l))
  ]

  unfoldable pub start_with_log : StartAnswers V → V → Held × Result Log → Held × Result (Session V)
  unfolding start_child discard_log
  start_with_log a terminal (u, err e) = (closes_terminal u, err e)
  start_with_log a terminal (u, ok l) = elim a.pipe [
    | some e ↦ (closes_terminal (discard_log u), err e)
    | none ↦ start_child a terminal (mark_size size l) (holds_pipe u)
  ]

  -- startSession
  unfoldable pub start_session : Bool → StartAnswers V → Held → Held × Result (Session V)
  unfolding start_with_log
  start_session context_done a u = if context_done then (u, err canceled) else elim a.new_terminal [
    | err e ↦ (u, err e)
    | ok terminal ↦ start_with_log a terminal (create_output_log a.created (holds_terminal u))
  ]

-- The command that ptyCommand makes.
pub record Command : Type 0 where
  pub program : Bytes
  pub arguments : List Bytes
  pub directory : Bytes
  pub environment : List Bytes

abbrev pub sh : Bytes
sh = b's' ∷ b'h' ∷ []

abbrev pub login_command : Bytes
login_command = b'-' ∷ b'l' ∷ b'c' ∷ []

abbrev pub command_of : Bytes → List Bytes → ProcessSpec → List Bytes → Command
command_of program arguments p environment = record {
  program = program;
  arguments = arguments;
  directory = p.directory;
  environment = environment;
}

abbrev pub command_in : Bytes → ProcessSpec → List Bytes → Command
command_in shell p environment =
    if not (is_empty p.shell_command)
    then command_of sh (login_command ∷ p.shell_command ∷ []) p environment
    else if not (is_empty p.path)
    then command_of p.path p.args p environment
    else command_of (if is_empty shell then sh else shell) [] p environment

-- ptyCommand: `shell` is the variable SHELL of the process, and `inherited` its environment; none
-- where ptyEnvironment panics.
unfoldable pub pty_command : Bytes → List Bytes → ProcessSpec → Bytes → Option Command
pty_command shell inherited p default_term =
    elim (pty_environment inherited p.environment default_term) [
      | none ↦ none
      | some environment ↦ some (command_in shell p environment)
    ]
