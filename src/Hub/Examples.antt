-- ===== src/Hub/Examples.antt =====
-- hub.go: sessions of a hub.
use mathlib.Core.List.{Perm, Pairwise-pair}
use mathlib.Core.HLevel.{¬_prop}
use mathlib.Core.List.Perm
use ghostline.Prelude.{
  ℕ, arith, bytes_eq_iff, ◌≢◌, zero, suc, ◌≡◌, ◌⊎◌, ◌↔◌, refl, false, [], ◌∷◌, Bytes, none, some,
}
use ghostline.Prelude.Int.{pos}
use ghostline.Prelude.Names.{find, store, discard}
use ghostline.Errors.{Error, session_exists, ok, err}
use ghostline.Size.{zero_size, validate, resolve}
use ghostline.Text.Search.{index_byte}
use ghostline.Hub.{
  Hub, ProcessSpec, SessionOptions, StartAnswer, check_options, validate_name, validate_process,
  validate_environment, reserve, release, publish_session, start_reserved, start,
}
use ghostline.Hub.Order.{
  IsNamedApart, IsInOrder, session_states, session_states_order, insert, before, bytes_less,
}
use ghostline.Hub.Names.{IsPathComponent, validate_name_exact}
use ghostline.Hub.Start.{view, with_session, start_outcome}
use ghostline.Hub.Steps.{reserves, here, then_step, publish_succeeds}

abbrev fresh : Hub
fresh = record {
  default_size = record { columns = pos 120; rows = pos 36 };
  scrollback = 1000;
  sessions = [];
  pending = [];
  is_closed = false;
}

abbrev main : Bytes
main = b'm' ∷ []

abbrev other : Bytes
other = b'o' ∷ []

abbrev process : ProcessSpec
process = record {
  path = b's' ∷ b'h' ∷ [];
  args = [];
  directory = [];
  environment = (b'A' ∷ b'=' ∷ []) ∷ [];
  shell_command = [];
}

abbrev options : SessionOptions
options = record { name = main; process = process; size = zero_size; scrollback_max_bytes = 0 }

abbrev started : StartAnswer
started = record { made_directory = none; started = ok 7 }

validate_name_exact_test : (validate_name main ≡ ok tt) ↔ IsPathComponent main
validate_name_exact_test = validate_name_exact main

start_outcome_example :
    ((e : Error) × ((start false started options fresh).1 ≡ err e)
      × (view main (start false started options fresh).0 ≡ view main fresh))
    ⊎ ((state : ℕ) × ((start false started options fresh).1 ≡ ok state)
        × (ok 7 ≡ ok state)
        × (find main fresh.sessions ≡ none)
        × (false ≡ false)
        × (view main (start false started options fresh).0 ≡ with_session main main state fresh))
start_outcome_example = start_outcome false started options main fresh

-- Two calls of Start at once.
abbrev both : Hub
both = record fresh { pending = (main, tt) ∷ (other, tt) ∷ [] }

publish_succeeds_example :
    ((publish_session other 8 both).1 ≡ none)
    × (find other (publish_session other 8 both).0.sessions ≡ some 8)
    × (find other (publish_session other 8 both).0.pending ≡ none)
unfolding reserve find store
publish_succeeds_example =
    publish_succeeds other 8 fresh both (refl, refl, refl)
      (then_step (then_step here (reserves main refl)) (reserves other refl)) refl

-- The session is found, and its name is refused to a second call.
start_twice :
    (start false started options (start false started options fresh).0).1 ≡ err session_exists
unfolding start check_options validate_name validate_process validate_environment resolve validate
    index_byte reserve start_reserved publish_session release find store discard
start_twice = refl

-- Two sessions made at the same time.
abbrev named : ℕ → Bytes
named zero = other
named (suc k) = main

named-IsNamedApart : IsNamedApart named (0 ∷ 1 ∷ [])
named-IsNamedApart =
    (Pairwise-pair {R = λ (x : ℕ) (y : ℕ). named x ≢ named y} (λ x y. ¬_prop)).1
      (λ e. ground (arith, (bytes_eq_iff (named 0) (named 1)).1 e))

session_states_order_example :
    Perm (session_states (λ k. 5) named (0 ∷ 1 ∷ [])) (0 ∷ 1 ∷ [])
    × IsInOrder (λ k. 5) named (session_states (λ k. 5) named (0 ∷ 1 ∷ []))
    × (session_states (λ k. 5) named (1 ∷ 0 ∷ []) ≡ session_states (λ k. 5) named (0 ∷ 1 ∷ []))
session_states_order_example =
    session_states_order (λ k. 5) named named-IsNamedApart (Perm.swap 0 1 [])

session_states_test : session_states (λ k. 5) named (0 ∷ 1 ∷ []) ≡ 1 ∷ 0 ∷ []
unfolding session_states insert before bytes_less
session_states_test = refl
