-- ===== src/Environment.antt =====
-- process.go: the environment of a session's child process.
use ghostline.Prelude.{
  ℕ, zero, suc, ◌+◌, ◌-◌, Bool, true, false, not, ◌&&◌, ◌||◌, List, [], ◌∷◌, ◌++◌, Bytes, length,
  take, drop, Option, none, some, if◌then◌else◌, ◌==◌, ltb, leb, bytes_eq,
}
use ghostline.Prelude.Names.{find, store}
use ghostline.Text.Search.{index_byte, has_prefix}
mod Term
mod Examples

-- "TERM="
abbrev pub term_equals : Bytes
term_equals = b'T' ∷ b'E' ∷ b'R' ∷ b'M' ∷ b'=' ∷ []

-- "xterm-256color"
abbrev pub builtin_term : Bytes
builtin_term =
    b'x' ∷ b't' ∷ b'e' ∷ b'r' ∷ b'm' ∷ b'-' ∷ b'2' ∷ b'5' ∷ b'6' ∷ b'c' ∷ b'o' ∷ b'l' ∷ b'o' ∷ b'r'
    ∷ []

-- The part before the first equals sign, where it is not empty.
unfoldable pub key_of : Bytes → Option Bytes
key_of entry = elim (index_byte entry b'=') [
  | none ↦ none
  | some separator ↦ if separator == 0 then none else some (take separator entry)
]

-- The first loop of mergeEnvironment: the last index of each key.
unfoldable pub index_keys : ℕ → List Bytes → List (Bytes × ℕ) → List (Bytes × ℕ)
index_keys i [] indices = indices
index_keys i (entry ∷ base) indices = elim (key_of entry) [
  | none ↦ index_keys (suc i) base indices
  | some key ↦ index_keys (suc i) base (store key i indices)
]

-- base[index] = entry
abbrev pub set_at : ℕ → Bytes → List Bytes → List Bytes
set_at i entry [] = []
set_at zero entry (old ∷ base) = entry ∷ base
set_at (suc i) entry (old ∷ base) = old ∷ set_at i entry base

-- The key of an override; none where the slice panics for want of an equals sign, which
-- validateEnvironment refuses before.
abbrev pub override_key : Bytes → Option Bytes
override_key entry = elim (index_byte entry b'=') [
  | none ↦ none
  | some separator ↦ some (take separator entry)
]

-- The second loop; none where it panics.
unfoldable pub apply_overrides : List (Bytes × ℕ) → List Bytes → List Bytes → Option (List Bytes)
apply_overrides indices base [] = some base
apply_overrides indices base (entry ∷ overrides) = elim (override_key entry) [
  | none ↦ none
  | some key ↦ elim (find key indices) [
    | some i ↦ apply_overrides indices (set_at i entry base) overrides
    | none ↦ apply_overrides (store key (length base) indices) (base ++ (entry ∷ [])) overrides
  ]
]

unfoldable pub merge_environment : List Bytes → List Bytes → Option (List Bytes)
merge_environment base [] = some base
merge_environment base (entry ∷ overrides) =
    apply_overrides (index_keys 0 base []) base (entry ∷ overrides)

-- nonEmptyEnv, with the prefix KEY=.
unfoldable pub non_empty_env : Bytes → List Bytes → Bool
non_empty_env prefix [] = false
non_empty_env prefix (entry ∷ env) =
    if ltb (length prefix) (length entry) && has_prefix entry prefix
    then true
    else non_empty_env prefix env

abbrev pub default_or_builtin : Bytes → Bytes
default_or_builtin [] = builtin_term
default_or_builtin (c ∷ term) = c ∷ term

unfoldable pub merge_term_default : List Bytes → Bytes → Option (List Bytes)
merge_term_default env default_term =
    if non_empty_env term_equals env
    then some env
    else merge_environment env ((term_equals ++ default_or_builtin default_term) ∷ [])

-- ptyEnvironment: `inherited` is os.Environ().
unfoldable pub pty_environment : List Bytes → List Bytes → Bytes → Option (List Bytes)
pty_environment inherited overrides default_term = elim (merge_environment inherited overrides) [
  | none ↦ none
  | some env ↦ merge_term_default env default_term
]
