-- ===== src/Hub.antt =====
-- hub.go and the tests of util.go: the hub that owns the local sessions. What is under its lock
-- is one step; Start takes the lock twice and starts the process in between, so it is two steps
-- and the steps of other calls may come between them.
use ghostline.Prelude.{
  ℕ, zero, suc, Bool, true, false, not, ◌&&◌, ◌||◌, List, [], ◌∷◌, ◌++◌, Bytes, length, Option,
  none, some, if◌then◌else◌, ◌==◌, bytes_eq, is_some, map,
}
use ghostline.Prelude.Names.{find, store, discard}
use ghostline.Errors.{
  Error, closed, session_exists, session_not_found, invalid_session_name, failure, canceled, Result,
  ok, err, ◌>>=◌, ◌>>◌,
}
use ghostline.Prelude.Int.{pos}
use ghostline.Size.{Size, resolve, default_columns, default_rows}
use ghostline.Text.Search.{index_byte}
mod Names
pub mod Order
mod Steps
mod Start
mod Examples

-- validateName
unfoldable pub validate_name : Bytes → Result (Unit {0})
validate_name name =
    if (length name == 0)
      || bytes_eq name (b'.' ∷ [])
      || bytes_eq name (b'.' ∷ b'.' ∷ [])
      || is_some (index_byte name b'/')
      || is_some (index_byte name b'\\')
      || is_some (index_byte name 0)
    then err invalid_session_name
    else ok tt

-- The test of one entry: KEY=VALUE with a key, and no NUL.
abbrev pub is_entry : Bytes → Bool
is_entry entry = elim (index_byte entry b'=') [
  | none ↦ false
  | some i ↦ not (i == 0) && not (is_some (index_byte entry 0))
]

unfoldable pub validate_environment : List Bytes → Result (Unit {0})
validate_environment [] = ok tt
validate_environment (entry ∷ rest) =
    if is_entry entry then validate_environment rest else err (failure [])

pub record ProcessSpec : Type 0 where
  pub path : Bytes
  pub args : List Bytes
  pub directory : Bytes
  pub environment : List Bytes
  pub shell_command : Bytes

abbrev pub is_empty {ℓ} : {A : Type ℓ} → List A → Bool
is_empty [] = true
is_empty (x ∷ xs) = false

-- ProcessSpec.validate
unfoldable pub validate_process : ProcessSpec → Result (Unit {0})
unfolding validate_environment
validate_process p =
    if not (is_empty p.shell_command) && (not (is_empty p.path) || not (is_empty p.args))
    then err (failure [])
    else if is_empty p.path && not (is_empty p.args)
    then err (failure [])
    else validate_environment p.environment

unfoldable pub resolve_scrollback : ℕ → ℕ → ℕ
resolve_scrollback value fallback = if not (value == 0) then value else fallback

pub record SessionOptions : Type 0 where
  pub name : Bytes
  pub process : ProcessSpec
  pub size : Size
  pub scrollback_max_bytes : ℕ

-- A session is known by the identity of its state.
pub record Hub : Type 0 where
  pub default_size : Size
  pub scrollback : ℕ
  pub sessions : List (Bytes × ℕ)
  pub pending : List (Bytes × Unit {0})
  pub is_closed : Bool

-- What the hub keeps of its options.
pub record Options : Type 0 where
  pub default_size : Size
  pub vt_scrollback_max_bytes : ℕ

-- New: the size falls back on 120 columns by 36 rows.
unfoldable pub new_hub : Options → ℕ → Result Hub
unfolding resolve_scrollback
new_hub o default_scrollback =
    elim (resolve o.default_size
      (record { columns = pos default_columns; rows = pos default_rows })) [
        | err e ↦ err e
        | ok size ↦ ok (record {
          default_size = size;
          scrollback = resolve_scrollback o.vt_scrollback_max_bytes default_scrollback;
          sessions = [];
          pending = [];
          is_closed = false;
        })
      ]

-- The first critical section of Start: the name is taken.
unfoldable pub reserve : Bytes → Hub → Hub × Option Error
reserve name h =
    if h.is_closed
    then (h, some closed)
    else if is_some (find name h.pending) || is_some (find name h.sessions)
    then (h, some session_exists)
    else (record h { pending = store name tt h.pending }, none)

-- release
unfoldable pub release : Bytes → Hub → Hub
release name h = record h { pending = discard name h.pending }

-- The second critical section; on an error the new session is terminated.
unfoldable pub publish_session : Bytes → ℕ → Hub → Hub × Option Error
unfolding release
publish_session name state h =
    let h' = release name h in
    if h'.is_closed
    then (h', some closed)
    else if is_some (find name h'.sessions)
    then (h', some session_exists)
    else (record h' { sessions = store name state h'.sessions }, none)

-- The tests that Start makes before it takes the lock.
unfoldable pub check_options : Bool → SessionOptions → Hub → Result Size
unfolding validate_name validate_process
check_options context_done options h =
    validate_name options.name
    >> validate_process options.process
    >> (if context_done then err canceled else resolve options.size h.default_size)

-- What the operating system and startSession answer.
pub record StartAnswer : Type 0 where
  pub made_directory : Option Error
  pub started : Result ℕ

-- Start without the steps of others in between.
unfoldable pub start_reserved : StartAnswer → Bytes → Hub → Hub × Result ℕ
unfolding publish_session
start_reserved answer name h = elim answer.made_directory [
  | some e ↦ (release name h, err e)
  | none ↦ elim answer.started [
    | err e ↦ (release name h, err e)
    | ok state ↦
        let (h', e) = publish_session name state h in
        (h', elim e [ none ↦ ok state | some e' ↦ err e' ])
  ]
]

abbrev pub after_reserve : StartAnswer → Bytes → Hub × (Option Error) → Hub × Result ℕ
after_reserve answer name (h, some e) = (h, err e)
after_reserve answer name (h, none) = start_reserved answer name h

unfoldable pub start : Bool → StartAnswer → SessionOptions → Hub → Hub × Result ℕ
start context_done answer options h = elim (check_options context_done options h) [
  | err e ↦ (h, err e)
  | ok size ↦ after_reserve answer options.name (reserve options.name h)
]

unfoldable pub get : Bool → Bytes → Hub → Result ℕ
get context_done name h =
    if context_done
    then err canceled
    else elim (find name h.sessions) [ none ↦ err session_not_found | some state ↦ ok state ]

unfoldable pub remove : Bytes → Hub → Hub
remove name h = record h { sessions = discard name h.sessions }

abbrev pub states_of : List (Bytes × ℕ) → List ℕ
states_of [] = []
states_of ((name, state) ∷ rest) = state ∷ states_of rest

-- Close: the sessions that it terminates.
unfoldable pub close_hub : Hub → Hub × List ℕ
close_hub h =
    if h.is_closed
    then (h, [])
    else (record h { sessions = []; is_closed = true }, states_of h.sessions)

-- beginMigrationBatch, once it has the write lock: it keeps the lock if the hub is open.
unfoldable pub begin_migration_batch : Hub → Bool
begin_migration_batch h = not h.is_closed
