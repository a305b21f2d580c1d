-- ===== src/Output/Open.antt =====
-- output.go: opening a log from its directory. What the file system answers is an argument.
use ghostline.Prelude.{
  ℕ, zero, suc, ◌+◌, ◌-◌, ◌≤◌, ◌<◌, ◌≡◌, refl, ◌∙◌, Bool, true, false, not, ◌&&◌, ◌||◌, List, [],
  ◌∷◌, ◌++◌, Bytes, length, take, Option, none, some, if◌then◌else◌, ◌==◌, ltb, leb, is_some, arith,
  subst, Bool-cases, Option-cases, inl, inr,
}
use ghostline.Prelude.Maps.{lookup, put, lookup-put}
use ghostline.Errors.{Error, invalid_cursor, failure, Result, Result-cases, ok, err}
use ghostline.Text.Decimal.{parse_uint}
use ghostline.Text.Search.{has_prefix}
use ghostline.Text.Space.{reverse}
use ghostline.Output.Cursor.{max_uint64}
use ghostline.Output.Log.{Segment, Log, output_segment_path}
mod Examples

pub record DirEntry : Type 0 where
  pub entry_name : Bytes
  pub is_dir : Bool
  pub entry_size : Result ℕ  -- entry.Info()

-- ".out", backwards
abbrev pub suffix_reversed : Bytes
suffix_reversed = b't' ∷ b'u' ∷ b'o' ∷ b'.' ∷ []

-- The generation in a file's name, if the name ends with ".out".
unfoldable pub entry_number : DirEntry → Option ℕ
entry_number entry =
    if entry.is_dir || not (has_prefix (reverse entry.entry_name) suffix_reversed)
    then none
    else parse_uint max_uint64 (take (length entry.entry_name - 4) entry.entry_name)

abbrev pub indexed_number : ℕ → Option ℕ → Option ℕ
indexed_number generation none = none
indexed_number generation (some n) = if (n == 0) || ltb generation n then none else some n

abbrev pub entry_path : Bytes → Bytes → Bytes
entry_path directory name = directory ++ (b'/' ∷ name)

-- The loop over the directory's entries.
unfoldable pub index_entries :
    Bytes → ℕ → List DirEntry → List (ℕ × Segment) → Result (List (ℕ × Segment))
index_entries directory generation [] segments = ok segments
index_entries directory generation (entry ∷ entries) segments =
    elim (indexed_number generation (entry_number entry)) [
      | none ↦ index_entries directory generation entries segments
      | some n ↦ elim entry.entry_size [
        | err e ↦ err e
        | ok size ↦
            index_entries directory generation entries (
              put n (record { path = entry_path directory entry.entry_name; size = size }) segments)
      ]
    ]

-- openOutputLog: `opened` is the size of the active file, where opening and Stat succeed.
unfoldable pub open_output_log :
    Result ℕ → Result (List DirEntry) → (ℕ → Bytes) → Bytes → ℕ → Result Log
open_output_log opened listed files directory generation = elim opened [
  | err e ↦ err e
  | ok size ↦ elim listed [
    | err e ↦ err e
    | ok entries ↦ elim (index_entries directory generation entries []) [
      | err e ↦ err e
      | ok segments ↦
          if not (is_some (lookup generation segments))
          then err (failure [])
          else ok (record {
            directory = directory;
            generation = generation;
            segments =
                put generation
                  (record { path = output_segment_path directory generation; size = size })
                  segments;
            files = files;
            linked = λ g. is_some (lookup g segments);
            active = true;
            changed = 0;
            closed = false;
            err = none;
            sizes = [];
          })
    ]
  ]
]

unfoldable pub adopt_output_log :
    Result ℕ → Result (List DirEntry) → (ℕ → Bytes) → Bytes → ℕ → Result Log
adopt_output_log opened listed files directory generation =
    if generation == 0
    then err invalid_cursor
    else open_output_log opened listed files directory generation

-- No segment is indexed at a generation outside the bounds.
IsBoundedAt : ℕ → ℕ → List (ℕ × Segment) → Type 0
IsBoundedAt generation g segments =
    (is_some (lookup g segments) && ((g == 0) || ltb generation g)) ≡ false

put-IsBoundedAt :
    (generation g n : ℕ) (s : Segment) (segments : List (ℕ × Segment))
    → ((n == 0) || ltb generation n) ≡ false
    → IsBoundedAt generation g segments
    → IsBoundedAt generation g (put n s segments)
unfolding IsBoundedAt
put-IsBoundedAt generation g n s segments h b = ground (arith, lookup-put n g s segments)

indexed_number-le :
    (generation : ℕ) (o : Option ℕ) (n : ℕ)
    → indexed_number generation o ≡ some n
    → ((n == 0) || ltb generation n) ≡ false
indexed_number-le generation none n e = cc
indexed_number-le generation (some m) n e = ground arith

index_entries-IsBoundedAt :
    (directory : Bytes) (generation g : ℕ) (entries : List DirEntry)
    (segments indexed : List (ℕ × Segment))
    → IsBoundedAt generation g segments
    → index_entries directory generation entries segments ≡ ok indexed
    → IsBoundedAt generation g indexed
unfolding index_entries
index_entries-IsBoundedAt directory generation g [] segments indexed b e =
    subst (IsBoundedAt generation g) (ground arith) b
index_entries-IsBoundedAt directory generation g (entry ∷ entries) segments indexed b e =
    elim (Option-cases (indexed_number generation (entry_number entry))) [
      | inl f ↦
          index_entries-IsBoundedAt directory generation g entries segments indexed b
            (ground (arith, e, f))
      | inr (n, f) ↦ elim (Result-cases entry.entry_size) [
        | inl (cause, t) ↦ ground (arith, e, f, t)
        | inr (size, t) ↦
            let s : Segment = record {
              path = entry_path directory entry.entry_name;
              size = size;
            } in
            index_entries-IsBoundedAt directory generation g entries (put n s segments) indexed
              (put-IsBoundedAt generation g n s segments
                (indexed_number-le generation (entry_number entry) n f) b)
              (ground (arith, e, f, t))
      ]
    ]

-- If the directory of a log can be read, every segment that is indexed has a generation from
-- one to the active one, whatever files stand in the directory.
pub index_entries-le :
    (directory : Bytes) (generation g : ℕ) (entries : List DirEntry) {indexed : List (ℕ × Segment)}
    {s : Segment}
    → index_entries directory generation entries [] ≡ ok indexed
    → lookup g indexed ≡ some s
    → (0 < g) × (g ≤ generation)
unfolding IsBoundedAt lookup
index_entries-le directory generation g entries {indexed} e f =
    let b = index_entries-IsBoundedAt directory generation g entries [] indexed refl e in
    (ground (arith, b, f), ground (arith, b, f))
