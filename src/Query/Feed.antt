-- ===== src/Query/Feed.antt =====
-- query.go: the loop of Feed ends, and a query that is split between two chunks is answered as
-- if it came in one.
use ghostline.Prelude.{
  ℕ, zero, suc, ◌≤◌, ◌<◌, ◌≡◌, refl, ap, ◌∙◌, sym, subst, List, [], ◌∷◌, ◌++◌, Bytes, length, arith,
  Option, none, some, Option-cases, inl, inr, ◌⊎◌, append_assoc,
}
use ghostline.Query.{
  Pass, stop, again, feed_pass, feed_loop, feed_locked, feed_escape, feed_csi, csi_reply,
  with_pending, collect, PendingQueryReply, QueryResponder,
}
use ghostline.Query.Color.{feed, answer, answer_all}
use ghostline.Query.Ends.{EndsPlain, EndsPlain-drop}
use ghostline.Query.Passes.{Continues, Shrinks, feed_pass-Continues, feed_pass-Shrinks}

Pass-cases :
    (pass : Pass)
    → ((left : Bytes) × (pass ≡ stop left))
      ⊎ ((left : Bytes) × (reply : Option PendingQueryReply) × (pass ≡ again left reply))
Pass-cases (stop left) = inl (left, refl)
Pass-cases (again left reply) = inr (left, reply, refl)

-- The passes from one buffer on, until one stops: what stays buffered, and the replies.
pub data Runs (r : QueryResponder) : Bytes → Bytes → List PendingQueryReply → Type 0 where
  stops : {p left : Bytes} → feed_pass r p ≡ stop left → Runs r p left []
  goes :
      {p left kept : Bytes} {reply : Option PendingQueryReply} {replies : List PendingQueryReply}
      → feed_pass r p ≡ again left reply
      → Runs r left kept replies
      → Runs r p kept (collect reply replies)

-- The loop ends on fuel above the length of the buffer.
feed_loop-Runs :
    (fuel : ℕ) (r : QueryResponder) (p : Bytes)
    → length p < fuel
    → (kept : Bytes) × (replies : List PendingQueryReply) × (feed_loop fuel r p
        ≡ some (kept, replies))
      × Runs r p kept replies
unfolding feed_loop
feed_loop-Runs zero r p h = absurd (omega arith)
feed_loop-Runs (suc fuel) r p h = elim (Pass-cases (feed_pass r p)) [
  | inl (left, e) ↦ rw (e, feed_loop) (left, [], refl, stops e)
  | inr (left, reply, e) ↦
      let (n, d, l) = subst (Shrinks p) e (feed_pass-Shrinks r p) in
      let (kept, replies, f, run) = feed_loop-Runs fuel r left (omega (arith, l, h)) in
      rw (e, f, feed_loop) (kept, collect reply replies, refl, goes e run)
]

pub Runs-unique :
    {r : QueryResponder} {p kept kept' : Bytes} {replies replies' : List PendingQueryReply}
    → Runs r p kept replies
    → Runs r p kept' replies'
    → (kept ≡ kept') × (replies ≡ replies')
Runs-unique (stops e) (stops f) = (cc, refl)
Runs-unique (stops e) (goes f run) = cc
Runs-unique (goes e run) (stops f) = cc
Runs-unique {r} (goes {left} {kept} {reply} {replies} e run)
      (goes {left = left'} {kept = kept'} {reply = reply'} {replies = replies'} f run') =
    let same : again left reply ≡ again left' reply' = sym e ∙ f in
    let run'' = subst (λ text. Runs r text kept' replies') {x = left'} {y = left} (cc) run' in
    let (k, rs) : (kept ≡ kept') × (replies ≡ replies') = Runs-unique run run'' in (k, cc)

collect-append :
    (reply : Option PendingQueryReply) (xs ys : List PendingQueryReply)
    → collect reply xs ++ ys ≡ collect reply (xs ++ ys)
collect-append none xs ys = refl
collect-append (some reply) xs ys = refl

Runs-same :
    {r : QueryResponder} {p q kept : Bytes} {replies : List PendingQueryReply}
    → feed_pass r p ≡ feed_pass r q
    → Runs r q kept replies
    → Runs r p kept replies
Runs-same e (stops f) = stops (e ∙ f)
Runs-same e (goes f run) = goes (e ∙ f) run

-- A run over the first bytes, and one over what they leave and the others, are a run over all.
Runs-append :
    {r : QueryResponder} {p left kept : Bytes} {first second : List PendingQueryReply}
    (more : Bytes)
    → length p ≤ 256
    → EndsPlain p
    → Runs r p left first
    → Runs r (left ++ more) kept second
    → Runs r (p ++ more) kept (first ++ second)
Runs-append {r} {p} more h plain (stops e) next =
    Runs-same
      (subst (λ pass. Continues r more pass (feed_pass r (p ++ more))) e
        (feed_pass-Continues r p more h plain))
      next
Runs-append {r} {p} {second} more h plain (goes {reply} {replies} e run) next =
    let (n, d, l) = subst (Shrinks p) e (feed_pass-Shrinks r p) in
    subst (Runs r (p ++ more) _) (sym (collect-append reply replies second)) (
      goes
        (subst (λ pass. Continues r more pass (feed_pass r (p ++ more))) e
          (feed_pass-Continues r p more h plain))
        (Runs-append more (omega (arith, l, h)) (subst EndsPlain (sym d) (EndsPlain-drop n p plain))
          run next))

feed_pass-with_pending :
    (r : QueryResponder) (left p : Bytes) → feed_pass (with_pending r left) p ≡ feed_pass r p
unfolding feed_pass feed_escape feed_csi csi_reply
feed_pass-with_pending r left p = refl

pub Runs-with_pending :
    {r : QueryResponder} {left p kept : Bytes} {replies : List PendingQueryReply}
    → Runs (with_pending r left) p kept replies
    → Runs r p kept replies
Runs-with_pending {r} {left} {p} (stops e) = stops (sym (feed_pass-with_pending r left p) ∙ e)
Runs-with_pending {r} {left} {p} (goes e run) =
    goes (sym (feed_pass-with_pending r left p) ∙ e) (Runs-with_pending run)

pub feed_locked-Runs :
    (r : QueryResponder) (data' : Bytes)
    → (kept : Bytes) × (replies : List PendingQueryReply) × (feed_locked r data'
        ≡ some (with_pending r kept, replies))
      × Runs r (r.pending ++ data') kept replies
unfolding feed_locked
feed_locked-Runs r data' =
    let p = r.pending ++ data' in
    let (kept, replies, e, run) = feed_loop-Runs (suc (length p)) r p (omega arith) in
    (kept, replies, rw (e, feed_locked) refl, run)

-- Feed is called with one chunk, then with the next; the replies are those of both calls.
abbrev pub feed_twice : QueryResponder → Bytes → Bytes → Option (QueryResponder × List Bytes)
feed_twice r first second = elim (feed r first) [
  | none ↦ none
  | some (between, replies) ↦ elim (feed between second) [
    | none ↦ none
    | some (after, more) ↦ some (after, replies ++ more)
  ]
]

answer_all-append :
    (callback : Option (ℕ → Option Bytes)) (xs ys : List PendingQueryReply)
    → answer_all callback (xs ++ ys) ≡ answer_all callback xs ++ answer_all callback ys
unfolding answer_all
answer_all-append callback [] ys = refl
answer_all-append callback (reply ∷ xs) ys = elim (Option-cases (answer callback reply)) [
  | inl e ↦ rw e (answer_all-append callback xs ys)
  | inr (text, e) ↦ rw e (ap (◌∷◌ text) (answer_all-append callback xs ys))
]

pub feed_answers :
    (r : QueryResponder) (data' : Bytes) {next : QueryResponder} {pending : List PendingQueryReply}
    → feed_locked r data' ≡ some (next, pending)
    → feed r data' ≡ some (next, answer_all r.color_query pending)
unfolding feed
feed_answers r data' e = rw (e, feed) refl

-- A run gives the result of the call.
pub feed-Runs :
    (r : QueryResponder) (data' : Bytes) {kept : Bytes} {replies : List PendingQueryReply}
    → Runs r (r.pending ++ data') kept replies
    → feed r data' ≡ some (with_pending r kept, answer_all r.color_query replies)
feed-Runs r data' {kept} run =
    let (left, found, e, other) = feed_locked-Runs r data' in
    let (k, rs) = Runs-unique other run in
    feed_answers r data' e
    ∙ ap (λ text. some (with_pending r text, answer_all r.color_query found)) k
    ∙ ap (λ pending. some (with_pending r kept, answer_all r.color_query pending)) rs

-- A chunk boundary changes neither the replies nor what stays buffered, if the buffer and the
-- first chunk together have at most 256 bytes and do not end with an escape.
pub feed-append :
    (r : QueryResponder) (first second : Bytes)
    → length (r.pending ++ first) ≤ 256
    → EndsPlain (r.pending ++ first)
    → feed r (first ++ second) ≡ feed_twice r first second
feed-append r first second h plain =
    let (left, xs, e, run) = feed_locked-Runs r first in
    let (kept, ys, f, next) = feed_locked-Runs (with_pending r left) second in
    let (all, zs, g, whole) = feed_locked-Runs r (first ++ second) in
    let joined = Runs-append second h plain run (Runs-with_pending next) in
    let (k, rs) =
      Runs-unique
        (subst (λ text. Runs r text all zs) (sym (append_assoc r.pending first second)) whole)
        joined in
    rw
      (
        feed_answers r first e,
        feed_answers (with_pending r left) second f,
        feed_answers r (first ++ second) g,
        k,
        rs,
        feed_twice,
      )
      (ap (λ replies. some (with_pending r kept, replies)) (answer_all-append r.color_query xs ys))
