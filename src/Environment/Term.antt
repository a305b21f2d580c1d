-- ===== src/Environment/Term.antt =====
-- process.go: a child process always has a TERM.
use ghostline.Prelude.{
  Bool, none, is_some, take, sym, ap, ◌∙◌, ℕ, zero, suc, ◌+◌, ◌<◌, ◌≡◌, ◌⊎◌, refl, inl, inr, true,
  false, ◌&&◌, List, [], ◌∷◌, ◌++◌, Bytes, length, some, ltb, arith, subst, Bool-cases,
  Option-cases,
}
use ghostline.Prelude.Names.{find, store, find-store}
use ghostline.Text.Search.{index_byte, has_prefix, has_prefix-append}
use ghostline.Environment.{
  term_equals, key_of, index_keys, set_at, override_key, apply_overrides, merge_environment,
  non_empty_env, default_or_builtin, merge_term_default, pty_environment,
}

-- Every index is below a bound.
IsBounded : ℕ → List (Bytes × ℕ) → Type 0
IsBounded n indices = (key : Bytes) (i : ℕ) → find key indices ≡ some i → i < n

store-IsBounded :
    (n : ℕ) (name : Bytes) (indices : List (Bytes × ℕ))
    → IsBounded n indices
    → IsBounded (suc n) (store name n indices)
unfolding IsBounded
store-IsBounded n name indices b = λ key i e. ground (arith, find-store name key n indices, b key i)

IsBounded-suc :
    (n : ℕ) (indices : List (Bytes × ℕ)) → IsBounded n indices → IsBounded (suc n) indices
unfolding IsBounded
IsBounded-suc n indices b = λ key i e. omega (arith, b key i e)

index_keys-IsBounded :
    (n m : ℕ) (base : List Bytes) (indices : List (Bytes × ℕ))
    → n + length base ≡ m
    → IsBounded n indices
    → IsBounded m (index_keys n base indices)
unfolding index_keys
index_keys-IsBounded n m [] indices h b = subst (λ k. IsBounded k indices) (omega (arith, h)) b
index_keys-IsBounded n m (entry ∷ base) indices h b = elim (Option-cases (key_of entry)) [
  | inl e ↦
      rw (e, index_keys)
        (index_keys-IsBounded (suc n) m base indices (omega (arith, h)) (IsBounded-suc n indices b))
  | inr (key, e) ↦
      rw (e, index_keys)
        (index_keys-IsBounded (suc n) m base (store key n indices) (omega (arith, h))
          (store-IsBounded n key indices b))
]

index_keys-lt :
    (base : List Bytes) (key : Bytes) (i : ℕ)
    → find key (index_keys 0 base []) ≡ some i
    → i < length base
unfolding IsBounded find
index_keys-lt base key i e =
    index_keys-IsBounded 0 (length base) base [] (omega arith) (λ k j f. absurd (ground (arith, f)))
      key i e

non_empty-set_at :
    (prefix entry : Bytes) (i : ℕ) (base : List Bytes)
    → i < length base
    → (ltb (length prefix) (length entry) && has_prefix entry prefix) ≡ true
    → non_empty_env prefix (set_at i entry base) ≡ true
unfolding non_empty_env
non_empty-set_at prefix entry i [] h p = absurd (omega arith)
non_empty-set_at prefix entry zero (old ∷ base) h p = rw p refl
non_empty-set_at prefix entry (suc i) (old ∷ base) h p =
    ground (arith, non_empty-set_at prefix entry i base)

non_empty-append :
    (prefix entry : Bytes) (base : List Bytes)
    → (ltb (length prefix) (length entry) && has_prefix entry prefix) ≡ true
    → non_empty_env prefix (base ++ (entry ∷ [])) ≡ true
unfolding non_empty_env
non_empty-append prefix entry [] p = rw p refl
non_empty-append prefix entry (old ∷ base) p = ground (arith, non_empty-append prefix entry base p)

merge-non_empty :
    (prefix entry key : Bytes) (base : List Bytes)
    → override_key entry ≡ some key
    → (ltb (length prefix) (length entry) && has_prefix entry prefix) ≡ true
    → (env : List Bytes) × (merge_environment base (entry ∷ []) ≡ some env)
      × (non_empty_env prefix env ≡ true)
unfolding merge_environment apply_overrides
merge-non_empty prefix entry key base named p =
    elim (Option-cases (find key (index_keys 0 base []))) [
      | inl e ↦ (
        base ++ (entry ∷ []),
        rw (named, e, merge_environment, apply_overrides) refl,
        non_empty-append prefix entry base p,
      )
      | inr (i, e) ↦ (
        set_at i entry base,
        rw (named, e, merge_environment, apply_overrides) refl,
        non_empty-set_at prefix entry i base (index_keys-lt base key i e) p,
      )
    ]

-- Every override has a key.
abbrev pub have_keys : List Bytes → Bool
have_keys [] = true
have_keys (entry ∷ overrides) = is_some (index_byte entry b'=') && have_keys overrides

override_key-some : (entry : Bytes) → is_some (override_key entry) ≡ is_some (index_byte entry b'=')
override_key-some entry = elim (Option-cases (index_byte entry b'=')) [
  | inl e ↦ rw (e, override_key) refl
  | inr (i, e) ↦ rw (e, override_key) refl
]

apply_cases :
    (indices : List (Bytes × ℕ)) (base overrides : List Bytes)
    → is_some (apply_overrides indices base overrides) ≡ have_keys overrides
unfolding apply_overrides
apply_cases indices base [] = refl
apply_cases indices base (entry ∷ overrides) =
    rw (sym (override_key-some entry)) (elim (Option-cases (override_key entry)) [
      | inl e ↦ rw (e, apply_overrides) refl
      | inr (key, e) ↦ elim (Option-cases (find key indices)) [
        | inl f ↦
            rw (e, f, apply_overrides)
              (apply_cases (store key (length base) indices) (base ++ (entry ∷ [])) overrides)
        | inr (i, f) ↦
            rw (e, f, apply_overrides) (apply_cases indices (set_at i entry base) overrides)
      ]
    ])

merge_cases :
    (base overrides : List Bytes) → is_some (merge_environment base overrides) ≡ have_keys overrides
unfolding merge_environment
merge_cases base [] = refl
merge_cases base (entry ∷ overrides) = apply_cases (index_keys 0 base []) base (entry ∷ overrides)

default_entry :
    (term : Bytes)
    → ltb (length term_equals) (length (term_equals ++ default_or_builtin term)) ≡ true
default_entry [] = refl
default_entry (c ∷ term) = ground arith

term_key : (term : Bytes) → override_key (term_equals ++ term) ≡ some (take 4 term_equals)
unfolding index_byte
term_key term = refl

-- Where the merge of the inherited variables and the overrides is `merged`.
merge_term-term :
    (merged : List Bytes) (default_term : Bytes)
    → (env : List Bytes) × (merge_term_default merged default_term ≡ some env)
      × (non_empty_env term_equals env ≡ true)
      × ((non_empty_env term_equals merged ≡ false) ⊎ (env ≡ merged))
unfolding merge_term_default
merge_term-term merged default_term = elim (Bool-cases (non_empty_env term_equals merged)) [
  | inl e ↦ (merged, rw (e, merge_term_default) refl, e, inr refl)
  | inr n ↦
      let entry = term_equals ++ default_or_builtin default_term in
      let (env, q, f) =
        merge-non_empty term_equals entry (take 4 term_equals) merged
          (term_key (default_or_builtin default_term))
          (rw (default_entry default_term)
            (has_prefix-append term_equals (default_or_builtin default_term))) in
      (env, rw (n, merge_term_default) q, f, inl n)
]

-- Where every override has a key, whatever is inherited and configured, the child's environment
-- has a TERM with a value; and where the merge of the inherited variables and the overrides has
-- one, the child's environment is that merge. Where an override has no key, the code panics.
pub pty_environment-term :
    (inherited overrides : List Bytes) (default_term : Bytes)
    → ((have_keys overrides ≡ false) × (pty_environment inherited overrides default_term ≡ none))
      ⊎ ((have_keys overrides ≡ true)
          × (env merged : List Bytes) × (merge_environment inherited overrides ≡ some merged)
          × (pty_environment inherited overrides default_term ≡ some env)
          × (non_empty_env term_equals env ≡ true)
          × ((non_empty_env term_equals merged ≡ false) ⊎ (env ≡ merged)))
unfolding pty_environment
pty_environment-term inherited overrides default_term =
    let keys = merge_cases inherited overrides in
    elim (Option-cases (merge_environment inherited overrides)) [
      | inl e ↦ inl (sym keys ∙ ap is_some e, rw (e, pty_environment) refl)
      | inr (merged, e) ↦
          let (env, q, f, same) = merge_term-term merged default_term in
          inr (sym keys ∙ ap is_some e, env, merged, e, rw (e, pty_environment) q, f, same)
    ]
