-- ===== src/Migrate/Peers.antt =====
-- migrate.go and server.go: a server that takes over the sessions of one that answers as
-- handleAdmin does.
use mathlib.Core.Option.{some-injective}
use ghostline.Prelude.{
  ℕ, ◌≡◌, inl, inr, refl, sym, ◌∙◌, ap, Bool, true, false, Option, none, some, List, [], ◌∷◌, Bytes,
  bytes_eq, if◌then◌else◌, is_some, Bool-cases, not, bytes_eq_iff,
}
use ghostline.Prelude.Names.{find}
use ghostline.Errors.{Error, failure, canceled, Result, ok, err}
use ghostline.Handover.{
  Source, AdminReply, StopAnswer, refuses, lists, hands_over, committed, exits, admin_list,
  admin_adopt, admin_batch, admin_exit,
}
use ghostline.Migrate.{SessionMeta, AdminListResult, AdminSnapshotResult, Peer, protocol_version}
use ghostline.Migrate.Attempts.{names_of_metas}

-- What the other server's sessions hold, and what happens there: between two requests, to a
-- session that is asked to stop, to a descriptor on its way, and in encoding a terminal.
pub record Surroundings (Shell : Type 0) : Type 0 where
  pub created : ℕ → ℕ
  pub name_of : ℕ → Bytes
  pub describe : ℕ → Option Error
  pub meta_of : Source → ℕ → Bool → SessionMeta
  pub stops : Bytes → StopAnswer
  pub others : Source → Source
  pub arrives : Result ℕ
  pub encoded : Bytes → Source → AdminSnapshotResult Shell

module _ {Shell : Type 0} (x : Surroundings Shell) where
  -- sessionMetaOf, under the name of the session.
  abbrev pub meta_named : Source → ℕ → Bool → SessionMeta
  meta_named s k alive = record (x.meta_of s k alive) { name = x.name_of k; alive = alive }

  abbrev pub metas : Source → List ℕ → List SessionMeta
  metas s [] = []
  metas s (k ∷ ks) = meta_named s k (not (s.handoffs k).session_done) ∷ metas s ks

  -- What the client makes of a reply.
  abbrev pub as_list : Source × AdminReply → Source × Result AdminListResult
  as_list (s, lists ks) =
      (s, ok (record { version = protocol_version; handoff_version = []; sessions = metas s ks }))
  as_list (s, refuses e) = (s, err (failure []))
  as_list (s, hands_over k alive) = (s, err (failure []))
  as_list (s, committed n) = (s, err (failure []))
  as_list (s, exits) = (s, err (failure []))

  -- A request that waits for longer than the client does.
  abbrev pub as_meta : Source → Option (Source × AdminReply) → Source × Result SessionMeta
  as_meta s none = (s, err canceled)
  as_meta s (some (s', hands_over k alive)) = (s', ok (meta_named s' k alive))
  as_meta s (some (s', refuses e)) = (s', err (failure []))
  as_meta s (some (s', lists ks)) = (s', err (failure []))
  as_meta s (some (s', committed n)) = (s', err (failure []))
  as_meta s (some (s', exits)) = (s', err (failure []))

  abbrev pub as_count : Source × AdminReply → Source × Result ℕ
  as_count (s, committed n) = (s, ok n)
  as_count (s, refuses e) = (s, err (failure []))
  as_count (s, lists ks) = (s, err (failure []))
  as_count (s, hands_over k alive) = (s, err (failure []))
  as_count (s, exits) = (s, err (failure []))

  -- The admin client's calls on a server that answers as handleAdmin does.
  abbrev pub source_peer : Peer Shell Source
  source_peer = record {
    list = λ s. as_list (admin_list x.created x.name_of x.describe (x.others s));
    adopt = λ name s. as_meta (x.others s) (admin_adopt (x.stops name) name (x.others s));
    take_fd = λ s. (s, x.arrives);
    snapshot = λ name s.
        if is_some (find name s.pending)
        then (x.others s, ok (x.encoded name s))
        else (x.others s, err (failure []));
    commit = λ names s. as_count (admin_batch true names (x.others s));
    abort = λ names s. (admin_batch false names (x.others s)).0;
    exit = λ s. (admin_exit s).0;
  }

  -- Entries that stand under the names of their sessions.
  abbrev pub IsNamed : List (Bytes × ℕ) → Type 0
  IsNamed [] = Unit {0}
  IsNamed ((name, k) ∷ rest) = (x.name_of k ≡ name) × IsNamed rest

  abbrev pub listed_names : List ℕ → List Bytes
  listed_names [] = []
  listed_names (k ∷ ks) = x.name_of k ∷ listed_names ks

  pub metas-names : (s : Source) (ks : List ℕ) → names_of_metas (metas s ks) ≡ listed_names ks
  metas-names s [] = refl
  metas-names s (k ∷ ks) = ap (λ ns. x.name_of k ∷ ns) (metas-names s ks)

  pub IsNamed-find :
      (name : Bytes) (k : ℕ) (entries : List (Bytes × ℕ))
      → IsNamed entries
      → find name entries ≡ some k
      → x.name_of k ≡ name
  unfolding find
  IsNamed-find name k [] n f = absurd (cc)
  IsNamed-find name k ((other, j) ∷ rest) (known, n) f = elim (Bool-cases (bytes_eq other name)) [
    | inl q ↦
        ap x.name_of (sym (some-injective j k (rw q at f))) ∙ known ∙ (bytes_eq_iff other name).0 q
    | inr q ↦ IsNamed-find name k rest n (rw q at f)
  ]
