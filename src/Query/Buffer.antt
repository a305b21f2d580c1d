-- ===== src/Query/Buffer.antt =====
-- query.go: what Feed leaves in its buffer.
use ghostline.Prelude.{
  ℕ, ◌≤◌, ◌<◌, ◌≡◌, refl, subst, List, [], ◌∷◌, Bytes, length, arith, some, Option-cases, inl, inr,
  Bool-cases, ltb, ◌==◌, if◌then◌else◌,
}
use ghostline.Text.Search.{index_byte}
use ghostline.Query.{
  csi_final, osc_end, escape, Pass, stop, again, feed_csi, feed_osc, feed_escape, feed_pass,
  PendingQueryReply, QueryResponder, with_pending,
}
use ghostline.Query.Color.{feed, answer_all}
use ghostline.Query.Ends.{index_byte-drop}
use ghostline.Query.Passes.{feed_pass-found, feed_pass-absent, End-cases}
use ghostline.Query.Feed.{Runs, stops, goes, feed_locked-Runs, feed_answers}

-- A buffer begins with an escape, or is empty, and is short.
abbrev pub IsBuffer : Bytes → Type 0
IsBuffer [] = Unit {0}
IsBuffer (c ∷ rest) = (c ≡ escape) × (length rest < 4096)

abbrev Leaves : Pass → Type 0
Leaves (stop left) = IsBuffer left
Leaves (again left reply) = Unit {0}

within :
    (n : ℕ) (rest : Bytes)
    → n ≤ 4096
    → IsBuffer (if ltb n (length (escape ∷ rest)) then [] else escape ∷ rest)
within n rest h = elim (Bool-cases (ltb n (length (escape ∷ rest)))) [
  | inl e ↦ rw e tt
  | inr e ↦ rw e (refl, ground arith)
]

feed_escape-Leaves : (r : QueryResponder) (rest : Bytes) → Leaves (feed_escape r (escape ∷ rest))
unfolding feed_escape
feed_escape-Leaves r [] = (refl, omega arith)
feed_escape-Leaves r (c ∷ body) = elim (Bool-cases (c == b'[')) [
  | inl e ↦ rw e (elim (End-cases (csi_final body 0)) [
    | inl (i, f) ↦ rw (f, feed_csi) tt
    | inr (inl (i, f)) ↦ rw (f, feed_csi) tt
    | inr (inr f) ↦ rw (f, feed_csi) (within 256 (c ∷ body) (omega arith))
  ])
  | inr n ↦ rw n (elim (Bool-cases (c == b']')) [
    | inl e ↦ rw e (elim (End-cases (osc_end body 0)) [
      | inl (i, f) ↦ rw (f, feed_osc) tt
      | inr (inl (i, f)) ↦ rw (f, feed_osc) tt
      | inr (inr f) ↦ rw (f, feed_osc) (within 4096 (c ∷ body) (omega arith))
    ])
    | inr m ↦ rw m tt
  ])
]

feed_pass-Leaves : (r : QueryResponder) (p : Bytes) → Leaves (feed_pass r p)
feed_pass-Leaves r p = elim (Option-cases (index_byte p escape)) [
  | inl e ↦ rw (feed_pass-absent r p e) tt
  | inr (i, e) ↦
      let (rest, d, a, n) = index_byte-drop p [] escape i e in
      rw (feed_pass-found r p e d) (feed_escape-Leaves r rest)
]

Runs-IsBuffer :
    {r : QueryResponder} {p kept : Bytes} {replies : List PendingQueryReply}
    → Runs r p kept replies
    → IsBuffer kept
Runs-IsBuffer {r} {p} (stops e) = subst Leaves e (feed_pass-Leaves r p)
Runs-IsBuffer (goes e run) = Runs-IsBuffer run

-- Feed ends on every chunk, whatever its buffer held, keeps the window size and the callback,
-- and what it leaves in its buffer is empty, or begins with an escape and has at most 4096
-- bytes.
pub feed-IsBuffer :
    (r : QueryResponder) (data' : Bytes)
    → (kept : Bytes) × (replies : List Bytes) × (feed r data' ≡ some (with_pending r kept, replies))
      × IsBuffer kept
feed-IsBuffer r data' =
    let (kept, pending, e, run) = feed_locked-Runs r data' in
    (kept, answer_all r.color_query pending, feed_answers r data' e, Runs-IsBuffer run)
