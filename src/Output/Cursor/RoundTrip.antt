-- ===== src/Output/Cursor/RoundTrip.antt =====
-- The text form of a cursor is stable: what String prints, ParseCursor reads back.
use ghostline.Prelude.{
  ℕ, ◌<◌, ◌≡◌, refl, ap, ◌≢◌, false, Option, none, some, List, [], ◌∷◌, ◌++◌, arith, Bytes,
  bytes_eq, Bool-cases, inl, inr, ◌∙◌, sym, subst,
}
use ghostline.Errors.{ok}
use ghostline.Text.Decimal.{format_uint, format_uint-Avoids, parse-format, parse_uint-le}
use ghostline.Text.Split.{split, split-part, split-last}
use ghostline.Output.Cursor.{
  Cursor, IsCursor, zero_cursor, cursor_eq, parse_cursor, to_string, marshal_text, unmarshal_text,
  max_uint64, max_int64, version_tag, parse_parts, cursor_of, cursor_eq_iff,
}

not_zero : (c : Cursor) → c ≢ zero_cursor → cursor_eq c zero_cursor ≡ false
not_zero c h = ground (arith, cursor_eq_iff c zero_cursor)

-- The text of a cursor that is not zero, before and after it is taken apart.
text_of : Cursor → Bytes
text_of c = version_tag ++ (b':' ∷ (format_uint c.generation ++ (b':' ∷ format_uint c.offset)))

to_string-text_of : (c : Cursor) → c ≢ zero_cursor → to_string c ≡ text_of c
unfolding to_string text_of
to_string-text_of c h = rw (not_zero c h)

split-text_of :
    (c : Cursor)
    → split b':' (text_of c) ≡ version_tag ∷ format_uint c.generation ∷ format_uint c.offset ∷ []
unfolding text_of
split-text_of c =
    split-part b':' version_tag _ (refl, (refl, tt))
    ∙ ap (◌∷◌ version_tag) (
        split-part b':' (format_uint c.generation) _ (format_uint-Avoids b':' c.generation refl)
        ∙ ap (◌∷◌ (format_uint c.generation))
            (split-last b':' (format_uint c.offset) (format_uint-Avoids b':' c.offset refl)))

parse-text_of : (c : Cursor) → 0 < c.generation → IsCursor c → parse_cursor (text_of c) ≡ ok c
unfolding parse_cursor text_of split
parse-text_of c p v =
    ap parse_parts (split-text_of c)
    ∙ ground (arith, parse-format max_uint64 c.generation v.0, parse-format max_int64 c.offset v.1)

parse-zero : parse_cursor (to_string zero_cursor) ≡ ok zero_cursor
unfolding to_string parse_cursor
parse-zero = refl

-- Every cursor that the program hands out is read back from its own text, the zero cursor from
-- the empty text.
pub parse-to_string : (c : Cursor) → IsCursor c → parse_cursor (to_string c) ≡ ok c
parse-to_string c v = elim (Bool-cases (cursor_eq c zero_cursor)) [
  | inl z ↦
      subst (λ d. parse_cursor (to_string d) ≡ ok d) (sym ((cursor_eq_iff c zero_cursor).0 z))
        parse-zero
  | inr n ↦
      let different : c ≢ zero_cursor = λ e. ground (arith, (cursor_eq_iff c zero_cursor).1 e) in
      rw (to_string-text_of c different) (parse-text_of c (ground arith) v)
]

cursor_of_ok :
    (g o : Option ℕ) (c : Cursor)
    → cursor_of g o ≡ ok c
    → (g ≡ some c.generation) × (o ≡ some c.offset) × (0 < c.generation)
unfolding cursor_of
cursor_of_ok none o c h = cc
cursor_of_ok (some g) none c h = cc
cursor_of_ok (some g) (some o) c h = ground arith

parse_parts-IsCursor : (parts : List Bytes) (c : Cursor) → parse_parts parts ≡ ok c → IsCursor c
unfolding parse_parts
parse_parts-IsCursor (tag ∷ g ∷ o ∷ []) c h = elim (Bool-cases (bytes_eq tag version_tag)) [
  | inl e ↦
      let (p, q, r) = cursor_of_ok _ _ c (rw e at h) in
      (parse_uint-le max_uint64 g p, parse_uint-le max_int64 o q, (λ z. absurd (omega arith)))
  | inr e ↦ absurd (ground arith)
]
parse_parts-IsCursor _ c h = cc

parse_cursor-IsCursor : (text : Bytes) (c : Cursor) → parse_cursor text ≡ ok c → IsCursor c
unfolding parse_cursor
parse_cursor-IsCursor [] c h = ground arith
parse_cursor-IsCursor (x ∷ text) c h = parse_parts-IsCursor (split b':' (x ∷ text)) c h

-- Whatever text is accepted, the cursor that it gives is well formed, and its own text gives the
-- same cursor again.
pub parse-to_string_stable :
    (text : Bytes) (c : Cursor)
    → parse_cursor text ≡ ok c
    → IsCursor c × (parse_cursor (to_string c) ≡ ok c)
parse-to_string_stable text c h = let v = parse_cursor-IsCursor text c h in (v, parse-to_string c v)

marshal_text_ok : (c : Cursor) → IsCursor c → marshal_text c ≡ ok (to_string c)
unfolding marshal_text
marshal_text_ok c v = ground arith

-- Through the text marshalling interface a cursor comes back, whatever the receiver held.
pub unmarshal-marshal :
    (c old : Cursor)
    → IsCursor c
    → (marshal_text c ≡ ok (to_string c)) × (unmarshal_text old (to_string c) ≡ (c, none))
unfolding unmarshal_text
unmarshal-marshal c old v = (marshal_text_ok c v, rw (parse-to_string c v, unmarshal_text))
