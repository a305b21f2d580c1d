-- ===== src/Migrate/Names.antt =====
-- migrate.go and server.go: the names of the sessions that are listed, and of those that are put
-- into the hub.
use ghostline.Prelude.{
  ℕ, ◌≡◌, inl, inr, refl, ◌∙◌, ap, List, [], ◌∷◌, Bytes, bytes_eq, is_some, ◌||◌, Bool-cases, arith,
}
use ghostline.Prelude.Names.{find, store}
use ghostline.Hub.Order.{session_states}
use ghostline.Handover.{identities}
use ghostline.Handover.Commit.{or_true, names_one}
use ghostline.Migrate.{install, firsts}
use ghostline.Migrate.Peers.{Surroundings, listed_names, IsNamed}
use ghostline.Hub.Order.{insert}
use ghostline.Prelude.Names.{find-store}

module _ {Shell : Type 0} (x : Surroundings Shell) where
  names_one-insert :
      (asked : Bytes) (y : ℕ) (l : List ℕ)
      → names_one asked (listed_names x (insert x.created x.name_of y l))
        ≡ (bytes_eq (x.name_of y) asked || names_one asked (listed_names x l))
  unfolding insert
  names_one-insert asked y [] = refl
  names_one-insert asked y (z ∷ l) = ground (arith, names_one-insert asked y l)

  -- The names that are listed are those under which the hub finds a session.
  pub names_one-listed :
      (asked : Bytes) (entries : List (Bytes × ℕ))
      → IsNamed x entries
      → names_one asked (listed_names x (session_states x.created x.name_of (identities entries)))
        ≡ is_some (find asked entries)
  unfolding session_states find
  names_one-listed asked [] n = refl
  names_one-listed asked ((name, k) ∷ rest) (known, n) =
      names_one-insert asked k (session_states x.created x.name_of (identities rest))
      ∙ elim (Bool-cases (bytes_eq name asked)) [
        | inl q ↦ rw (known, q) refl
        | inr q ↦ rw (known, q) (names_one-listed asked rest n)
      ]

pub find-install :
    {V : Type 0}
    → (asked : Bytes) (done sessions : List (Bytes × V))
    → is_some (find asked (install done sessions))
      ≡ (names_one asked (firsts done) || is_some (find asked sessions))
find-install asked [] sessions = refl
find-install asked ((name, v) ∷ done) sessions =
    find-install asked done (store name v sessions)
    ∙ ap (λ o. names_one asked (firsts done) || is_some o) (find-store name asked v sessions)
    ∙ elim (Bool-cases (bytes_eq name asked)) [
      | inl q ↦ rw q (or_true (names_one asked (firsts done)))
      | inr q ↦ rw q refl
    ]
