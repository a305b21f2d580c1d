-- ===== src/Query/Passes.antt =====
-- query.go: what one pass of the loop does when more bytes follow, and that it uses some up.
use ghostline.Prelude.{
  ℕ, ◌+◌, ◌≤◌, ◌<◌, ◌≡◌, refl, ap, ◌∙◌, sym, subst, false, [], ◌∷◌, ◌++◌, Bytes, length, arith,
  drop, none, some, ◌==◌, Bool-cases, Option-cases, inl, inr, ◌⊎◌, drop-append, length-drop,
  take-append, drop-drop,
}
use ghostline.Text.Search.{index_byte}
use ghostline.Query.{
  SequenceEnd, complete, broken, partial, csi_final, osc_end, escape, Pass, stop, again, feed_csi,
  feed_osc, feed_escape, feed_pass, QueryResponder,
}
use ghostline.Query.Ends.{
  EndsPlain, csi_final-append, osc_end-append, csi_final-lt, osc_end-le, index_byte-drop,
  EndsPlain-drop,
}

pub End-cases :
    (s : SequenceEnd) → ((i : ℕ) × (s ≡ complete i)) ⊎ (((i : ℕ) × (s ≡ broken i)) ⊎ (s ≡ partial))
End-cases (complete i) = inl (i, refl)
End-cases (broken i) = inr (inl (i, refl))
End-cases partial = inr (inr refl)

-- What a pass does on the buffer it began with, and with more bytes behind it.
abbrev Extends : Bytes → Bytes → Pass → Pass → Type 0
Extends p more (stop left) result = left ≡ p
Extends p more (again left reply) result = result ≡ again (left ++ more) reply

feed_csi-Extends :
    (r : QueryResponder) (x c : ℕ) (body more : Bytes)
    → length (x ∷ c ∷ body) ≤ 256
    → Extends (x ∷ c ∷ body) more (feed_csi r (x ∷ c ∷ body)) (feed_csi r (x ∷ c ∷ body ++ more))
unfolding feed_csi
feed_csi-Extends r x c body more h = elim (End-cases (csi_final body 0)) [
  | inl (i, e) ↦
      rw (e, csi_final-append body more 0 (rw e refl) ∙ e, feed_csi)
        (let lt = csi_final-lt body 0 i e in
          rw
            (
              drop-append (2 + i + 1) (x ∷ c ∷ body) more (omega (arith, lt)),
              take-append (i + 1) body more (omega (arith, lt)),
            )
            refl)
  | inr (inl (i, e)) ↦ rw (e, csi_final-append body more 0 (rw e refl) ∙ e, feed_csi) refl
  | inr (inr e) ↦ rw (e, feed_csi) (ground arith)
]

feed_osc-Extends :
    (x c : ℕ) (body more : Bytes)
    → length (x ∷ c ∷ body) ≤ 256
    → EndsPlain body
    → Extends (x ∷ c ∷ body) more (feed_osc (x ∷ c ∷ body)) (feed_osc (x ∷ c ∷ body ++ more))
unfolding feed_osc
feed_osc-Extends x c body more h p = elim (End-cases (osc_end body 0)) [
  | inl (i, e) ↦
      rw (e, osc_end-append body more 0 p (rw e refl) ∙ e, feed_osc)
        (let lt = osc_end-le body 0 i e in
          rw
            (
              drop-append (2 + i) (x ∷ c ∷ body) more (omega (arith, lt)),
              take-append i body more (omega (arith, lt)),
            )
            refl)
  | inr (inl (i, e)) ↦ rw (e, osc_end-append body more 0 p (rw e refl) ∙ e, feed_osc) refl
  | inr (inr e) ↦ rw (e, feed_osc) (ground arith)
]

feed_escape-Extends :
    (r : QueryResponder) (x : ℕ) (rest more : Bytes)
    → length (x ∷ rest) ≤ 256
    → EndsPlain (x ∷ rest)
    → Extends (x ∷ rest) more (feed_escape r (x ∷ rest)) (feed_escape r (x ∷ rest ++ more))
unfolding feed_escape
feed_escape-Extends r x [] more h p = refl
feed_escape-Extends r x (c ∷ body) more h p = elim (Bool-cases (c == b'[')) [
  | inl e ↦ rw e (feed_csi-Extends r x c body more h)
  | inr n ↦ rw n (elim (Bool-cases (c == b']')) [
    | inl e ↦ rw e (feed_osc-Extends x c body more h (EndsPlain-drop 2 (x ∷ c ∷ body) p))
    | inr m ↦ rw m refl
  ])
]

feed_pass-skip_one :
    (r : QueryResponder) (x : ℕ) (text : Bytes)
    → (x == escape) ≡ false
    → feed_pass r (x ∷ text) ≡ feed_pass r text
unfolding feed_pass index_byte
feed_pass-skip_one r x text h = elim (Option-cases (index_byte text escape)) [
  | inl e ↦ rw (e, h, feed_pass, index_byte) refl
  | inr (i, e) ↦ rw (e, h, feed_pass, index_byte) refl
]

pub feed_pass-skip :
    (r : QueryResponder) (text more : Bytes)
    → index_byte text escape ≡ none
    → feed_pass r (text ++ more) ≡ feed_pass r more
unfolding index_byte
feed_pass-skip r [] more e = refl
feed_pass-skip r (x ∷ text) more e =
    feed_pass-skip_one r x (text ++ more) (ground arith) ∙ feed_pass-skip r text more (ground arith)

-- A pass that stops leaves a buffer that stands for the text; a pass that goes on does the
-- same when more bytes follow.
abbrev pub Continues : QueryResponder → Bytes → Pass → Pass → Type 0
Continues r more (stop left) result = result ≡ feed_pass r (left ++ more)
Continues r more (again left reply) result = result ≡ again (left ++ more) reply

pub feed_pass-escape :
    (r : QueryResponder) (rest : Bytes)
    → feed_pass r (escape ∷ rest) ≡ feed_escape r (escape ∷ rest)
unfolding feed_pass index_byte
feed_pass-escape r rest = refl

Extends-Continues :
    (r : QueryResponder) (rest more : Bytes) (pass : Pass)
    → Extends (escape ∷ rest) more pass (feed_escape r (escape ∷ rest ++ more))
    → Continues r more pass (feed_escape r (escape ∷ rest ++ more))
Extends-Continues r rest more (stop left) h =
    sym (feed_pass-escape r (rest ++ more)) ∙ ap (λ text. feed_pass r (text ++ more)) (sym h)
Extends-Continues r rest more (again left reply) h = h

pub feed_pass-absent :
    (r : QueryResponder) (p : Bytes) → index_byte p escape ≡ none → feed_pass r p ≡ stop []
unfolding feed_pass
feed_pass-absent r p e = rw (e, feed_pass) refl

pub feed_pass-found :
    (r : QueryResponder) (p : Bytes) {i : ℕ} {text : Bytes}
    → index_byte p escape ≡ some i
    → drop i p ≡ text
    → feed_pass r p ≡ feed_escape r text
unfolding feed_pass
feed_pass-found r p e d = rw (e, feed_pass) (ap (feed_escape r) d)

pub feed_pass-Continues :
    (r : QueryResponder) (p more : Bytes)
    → length p ≤ 256
    → EndsPlain p
    → Continues r more (feed_pass r p) (feed_pass r (p ++ more))
feed_pass-Continues r p more h plain = elim (Option-cases (index_byte p escape)) [
  | inl e ↦ rw (feed_pass-absent r p e) (feed_pass-skip r p more e)
  | inr (i, e) ↦
      let (rest, d, a, n) = index_byte-drop p more escape i e in
      rw
        (feed_pass-found r p e d, feed_pass-found r (p ++ more) n (a ∙ ap (λ text. text ++ more) d))
        (Extends-Continues r rest more (feed_escape r (escape ∷ rest)) (
          feed_escape-Extends r escape rest more (omega (arith, h, length-drop i p, ap length d))
            (subst EndsPlain d (EndsPlain-drop i p plain))))
]

-- A pass that goes on drops bytes from the front.
abbrev pub Shrinks : Bytes → Pass → Type 0
Shrinks p (stop left) = Unit {0}
Shrinks p (again left reply) = (n : ℕ) × (left ≡ drop n p) × (length left < length p)

feed_csi-Shrinks :
    (r : QueryResponder) (x : ℕ) (rest : Bytes) → Shrinks (x ∷ rest) (feed_csi r (x ∷ rest))
unfolding feed_csi
feed_csi-Shrinks r x rest = elim (End-cases (csi_final (drop 1 rest) 0)) [
  | inl (i, e) ↦
      rw (e, feed_csi) (2 + i + 1, refl, omega (arith, length-drop (2 + i + 1) (x ∷ rest)))
  | inr (inl (i, e)) ↦ rw (e, feed_csi) (1, refl, omega arith)
  | inr (inr e) ↦ rw (e, feed_csi) tt
]

feed_osc-Shrinks : (x : ℕ) (rest : Bytes) → Shrinks (x ∷ rest) (feed_osc (x ∷ rest))
unfolding feed_osc
feed_osc-Shrinks x rest = elim (End-cases (osc_end (drop 1 rest) 0)) [
  | inl (i, e) ↦ rw (e, feed_osc) (2 + i, refl, omega (arith, length-drop (2 + i) (x ∷ rest)))
  | inr (inl (i, e)) ↦ rw (e, feed_osc) (1, refl, omega arith)
  | inr (inr e) ↦ rw (e, feed_osc) tt
]

feed_escape-Shrinks :
    (r : QueryResponder) (x : ℕ) (rest : Bytes) → Shrinks (x ∷ rest) (feed_escape r (x ∷ rest))
unfolding feed_escape
feed_escape-Shrinks r x [] = tt
feed_escape-Shrinks r x (c ∷ body) = elim (Bool-cases (c == b'[')) [
  | inl e ↦ rw e (feed_csi-Shrinks r x (c ∷ body))
  | inr n ↦ rw n (elim (Bool-cases (c == b']')) [
    | inl e ↦ rw e (feed_osc-Shrinks x (c ∷ body))
    | inr m ↦ rw m (1, refl, omega arith)
  ])
]

Shrinks-drop : (p : Bytes) (i : ℕ) (pass : Pass) → Shrinks (drop i p) pass → Shrinks p pass
Shrinks-drop p i (stop left) h = tt
Shrinks-drop p i (again left reply) (n, e, l) =
    (i + n, e ∙ drop-drop i n p, omega (arith, l, length-drop i p))

pub feed_pass-Shrinks : (r : QueryResponder) (p : Bytes) → Shrinks p (feed_pass r p)
feed_pass-Shrinks r p = elim (Option-cases (index_byte p escape)) [
  | inl e ↦ rw (feed_pass-absent r p e) tt
  | inr (i, e) ↦
      let (rest, d, a, n) = index_byte-drop p [] escape i e in
      rw (feed_pass-found r p e d) (
        Shrinks-drop p i (feed_escape r (escape ∷ rest)) (
          subst (λ text. Shrinks text (feed_escape r (escape ∷ rest))) (sym d)
            (feed_escape-Shrinks r escape rest)))
]
