-- ===== src/Environment/Examples.antt =====
-- process.go: the environment of a child.
use ghostline.Prelude.{some, none, ◌≡◌, ◌⊎◌, refl, true, false, List, [], ◌∷◌, ◌++◌, Bytes}
use ghostline.Prelude.Names.{find, store}
use ghostline.Text.Search.{index_byte, has_prefix}
use ghostline.Environment.{
  term_equals, builtin_term, key_of, index_keys, apply_overrides, merge_environment, non_empty_env,
  merge_term_default, pty_environment,
}
use ghostline.Environment.Term.{have_keys, pty_environment-term}

-- "A=1" and "A=2", and a TERM without a value.
abbrev inherited : List Bytes
inherited = (b'A' ∷ b'=' ∷ b'1' ∷ []) ∷ term_equals ∷ []

abbrev overrides : List Bytes
overrides = (b'A' ∷ b'=' ∷ b'2' ∷ []) ∷ []

pty_environment-term_example :
    ((have_keys overrides ≡ false) × (pty_environment inherited overrides [] ≡ none))
    ⊎ ((have_keys overrides ≡ true)
        × (env merged : List Bytes) × (merge_environment inherited overrides ≡ some merged)
        × (pty_environment inherited overrides [] ≡ some env)
        × (non_empty_env term_equals env ≡ true)
        × ((non_empty_env term_equals merged ≡ false) ⊎ (env ≡ merged)))
pty_environment-term_example = pty_environment-term inherited overrides []

-- Both variables are replaced where they stand.
merged :
    pty_environment inherited overrides []
    ≡ some ((b'A' ∷ b'=' ∷ b'2' ∷ []) ∷ (term_equals ++ builtin_term) ∷ [])
unfolding pty_environment merge_term_default merge_environment apply_overrides index_keys key_of
    find store index_byte non_empty_env has_prefix
merged = refl
