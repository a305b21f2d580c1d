-- ===== src/Migrate/Part.antt =====
-- migrate.go and server.go: a server that answers as handleAdmin does keeps to its part of a
-- migration.
use ghostline.Prelude.{
  ℕ, ◌≡◌, ◌⊎◌, inl, inr, refl, sym, ◌∙◌, ap, subst, true, none, List, [], Bytes, length,
  if◌then◌else◌, is_some, ◌||◌, Bool-cases,
}
use ghostline.Prelude.Names.{find}
use ghostline.Errors.{Error, failure, Result, ok, err}
use ghostline.Hub.Order.{session_states}
use ghostline.Handover.{
  Source, AdminReply, refuses, lists, hands_over, committed, exits, identities, admin_batch,
  admin_exit, is_idle,
}
use ghostline.Handover.Prepared.{names_of}
use ghostline.Handover.Commit.{commit_outcome, has_identity, names_one}
use ghostline.Handover.Keeps.{Keeps-trans}
use ghostline.Handover.Aborts.{admin_batch-Keeps}
use ghostline.Handover.Pending.{admin_batch-IsSource}
use ghostline.Migrate.Peers.{Surroundings, source_peer, as_count, listed_names, IsNamed}
use ghostline.Migrate.Requests.{
  IsApart, all_names, Before, Done, others-Before, admin_list-IsListed, as_list-Keeps,
  as_list-names, adopt-IsMeta,
}

module _ {Shell : Type 0} (x : Surroundings Shell) where
  as_count-source : (r : Source × AdminReply) → (as_count x r).0 ≡ r.0
  as_count-source (s, refuses e) = refl
  as_count-source (s, lists ks) = refl
  as_count-source (s, hands_over k alive) = refl
  as_count-source (s, committed n) = refl
  as_count-source (s, exits) = refl

  abbrev count_of : AdminReply → Result ℕ
  count_of (committed n) = ok n
  count_of (refuses e) = err (failure [])
  count_of (lists ks) = err (failure [])
  count_of (hands_over k alive) = err (failure [])
  count_of exits = err (failure [])

  as_count-count : (r : Source × AdminReply) → (as_count x r).1 ≡ count_of r.1
  as_count-count (s, refuses e) = refl
  as_count-count (s, lists ks) = refl
  as_count-count (s, hands_over k alive) = refl
  as_count-count (s, committed n) = refl
  as_count-count (s, exits) = refl

module _ {Shell : Type 0} (x : Surroundings Shell) (apart : IsApart x) (s₀ : Source)
    (named : IsNamed x s₀.sessions) where
  pub commit_keeps :
      (ns : List Bytes) (s : Source)
      → Before x apart s₀ named s
      → let r = as_count x (admin_batch true ns (x.others s)) in
        ((e : Error) × (r.1 ≡ err e) × Before x apart s₀ named r.0)
        ⊎ ((r.1 ≡ ok (length ns)) × Done x apart s₀ named ns r.0)
  commit_keeps ns s b =
      let s' = x.others s in
      let b' = others-Before x apart s₀ named s b in
      let r = admin_batch true ns s' in
      elim (commit_outcome x.name_of ns s' b'.2) [
        | inl (e, q, kept) ↦ inl (
          failure [],
          as_count-count x r ∙ ap (count_of x) q,
          subst (Before x apart s₀ named) (sym (as_count-source x r)) (
              Keeps-trans x.name_of s₀ s' r.0 b'
                (kept.0, kept.1, admin_batch-IsSource x.name_of ns s' b'.2)),
        )
        | inr (batch, p, same, q, over) ↦ inr (
          as_count-count x r ∙ ap (count_of x) q,
          subst (Done x apart s₀ named ns) (sym (as_count-source x r)) (
            batch,
            same,
            (
              λ asked.
                  over.0 asked
                  ∙ ap (λ m. if names_one asked (names_of batch) then none else find asked m) b'.0,
              λ k. over.1 k ∙ ap (λ m. has_identity k batch || m) (b'.1 k),
            ),
          ),
        )
      ]

  pub snapshot_keeps :
      (name : Bytes) (s : Source)
      → Before x apart s₀ named s
      → Before x apart s₀ named ((source_peer x).snapshot name s).0
  snapshot_keeps name s b = elim (Bool-cases (is_some (find name s.pending))) [
    | inl q ↦ rw q (others-Before x apart s₀ named s b)
    | inr q ↦ rw q (others-Before x apart s₀ named s b)
  ]

  pub exit_source : (s : Source) → (admin_exit s).0 ≡ s
  unfolding admin_exit
  exit_source s = elim (Bool-cases (is_idle s.pending)) [
    | inl q ↦ rw (q, admin_exit) refl
    | inr q ↦ rw (q, admin_exit) refl
  ]

  -- A server that answers as handleAdmin does keeps to its part.
  abbrev pub source_keeps :
      ghostline.Migrate.Attempts.Keeps (source_peer x) (all_names x apart s₀ named)
  source_keeps = record {
    Before = Before x apart s₀ named;
    Done = Done x apart s₀ named;
    list-Before = λ s b.
        let b' = others-Before x apart s₀ named s b in
        Keeps-trans x.name_of s₀ (x.others s) ((source_peer x).list s).0 b' (
          as_list-Keeps x apart s₀ named (x.others s) _
            (admin_list-IsListed x apart s₀ named (x.others s) b'.2));
    list_names = λ s l b q.
        let b' = others-Before x apart s₀ named s b in
        as_list-names x apart s₀ named (x.others s) _ l
          (admin_list-IsListed x apart s₀ named (x.others s) b'.2) q
        ∙ ap (λ m. listed_names x (session_states x.created x.name_of (identities m))) b'.0;
    adopt-Before = λ name s b.
        Keeps-trans x.name_of s₀ (x.others s) ((source_peer x).adopt name s).0
          (others-Before x apart s₀ named s b) (adopt-IsMeta x apart s₀ named name s b).0;
    adopt_name = λ name s m b q. (adopt-IsMeta x apart s₀ named name s b).1 m q;
    take_fd-Before = λ s b. b;
    snapshot-Before = snapshot_keeps;
    abort-Before = λ ns s b.
        let b' = others-Before x apart s₀ named s b in
        Keeps-trans x.name_of s₀ (x.others s) ((source_peer x).abort ns s) b'
          (admin_batch-Keeps x.name_of ns (x.others s) b'.2);
    commit-Done = commit_keeps;
    exit-Done = λ ns s d. subst (Done x apart s₀ named ns) (sym (exit_source s)) d;
  }
