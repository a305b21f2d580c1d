-- ===== src/Remote/Codecs.antt =====
-- Encodings for the examples: a number stands for itself, and a text comes last.
use ghostline.Prelude.{
  ℕ, zero, suc, ◌≡◌, ◌≢◌, refl, ◌∙◌, Bool, true, false, Option, none, some, [], ◌∷◌, Bytes,
}
use ghostline.Prelude.Int.{ℤ, pos, negsuc}
use ghostline.Size.{Size}
use ghostline.Output.Cursor.{Cursor}
use ghostline.Session.{ExitError}
use ghostline.Session.Local.{Status}
use ghostline.Remote.{
  Codec, IsCodec, ChunkReadParams, BlobReadResult, BlobOpenResult, OutputReadResult,
}
use ghostline.Remote.Dispatch.{SessionInfo, ResizeParams, SignalParams, PruneParams}

-- Every value is read back, and none is encoded as nothing.
pub record IsJson {A : Type 0} (c : Codec A) : Type 0 where
  pub back : IsCodec c
  pub nonempty : (a : A) → c.encode a ≢ []

-- A sign and a size; a decoder that reads a part is given what to do with the rest.
abbrev put_int : ℤ → Bytes → Bytes
put_int (pos n) rest = 0 ∷ n ∷ rest
put_int (negsuc n) rest = 1 ∷ n ∷ rest

abbrev get_int : {A : Type 0} → (ℤ → Bytes → Option A) → Bytes → Option A
get_int k (zero ∷ n ∷ rest) = k (pos n) rest
get_int k (suc s ∷ n ∷ rest) = k (negsuc n) rest
get_int k (s ∷ []) = none
get_int k [] = none

get-put_int :
    {A : Type 0} (k : ℤ → Bytes → Option A) (z : ℤ) (rest : Bytes)
    → get_int k (put_int z rest) ≡ k z rest
get-put_int k (pos n) rest = refl
get-put_int k (negsuc n) rest = refl

abbrev put_bool : Bool → Bytes → Bytes
put_bool false rest = 0 ∷ rest
put_bool true rest = 1 ∷ rest

abbrev get_bool : {A : Type 0} → (Bool → Bytes → Option A) → Bytes → Option A
get_bool k (zero ∷ rest) = k false rest
get_bool k (suc n ∷ rest) = k true rest
get_bool k [] = none

get-put_bool :
    {A : Type 0} (k : Bool → Bytes → Option A) (b : Bool) (rest : Bytes)
    → get_bool k (put_bool b rest) ≡ k b rest
get-put_bool k false rest = refl
get-put_bool k true rest = refl

abbrev get_nat : {A : Type 0} → (ℕ → Bytes → Option A) → Bytes → Option A
get_nat k (n ∷ rest) = k n rest
get_nat k [] = none

abbrev put_size : Size → Bytes → Bytes
put_size s rest = put_int s.columns (put_int s.rows rest)

abbrev get_size : {A : Type 0} → (Size → Bytes → Option A) → Bytes → Option A
get_size k = get_int (λ c. get_int (λ r. k (record { columns = c; rows = r })))

get-put_size :
    {A : Type 0} (k : Size → Bytes → Option A) (s : Size) (rest : Bytes)
    → get_size k (put_size s rest) ≡ k s rest
get-put_size k s rest =
    get-put_int (λ c. get_int (λ r. k (record { columns = c; rows = r }))) s.columns
      (put_int s.rows rest)
    ∙ get-put_int (λ r. k (record { columns = s.columns; rows = r })) s.rows rest

abbrev pub chunk_params : Codec ChunkReadParams
chunk_params = record {
  encode = λ p. put_int p.max_bytes (put_bool p.sized []);
  decode = get_int (λ n. get_bool (λ b rest. some (record { max_bytes = n; sized = b })));
}

pub chunk_params-IsCodec : IsCodec chunk_params
chunk_params-IsCodec p =
    get-put_int (λ n. get_bool (λ b rest. some (record { max_bytes = n; sized = b }))) p.max_bytes
      (put_bool p.sized [])
    ∙ get-put_bool (λ b rest. some (record { max_bytes = p.max_bytes; sized = b })) p.sized []

abbrev pub blob_reads : Codec BlobReadResult
blob_reads = record {
  encode = λ r. put_bool r.eof [];
  decode = get_bool (λ b rest. some (record { eof = b }));
}

pub blob_reads-IsCodec : IsCodec blob_reads
blob_reads-IsCodec r = get-put_bool (λ b rest. some (record { eof = b })) r.eof []

abbrev put_grid : Option Size → Bytes → Bytes
put_grid none rest = 0 ∷ rest
put_grid (some s) rest = 1 ∷ put_size s rest

abbrev get_grid : {A : Type 0} → (Option Size → Bytes → Option A) → Bytes → Option A
get_grid k (zero ∷ rest) = k none rest
get_grid k (suc n ∷ rest) = get_size (λ s. k (some s)) rest
get_grid k [] = none

get-put_grid :
    {A : Type 0} (k : Option Size → Bytes → Option A) (g : Option Size) (rest : Bytes)
    → get_grid k (put_grid g rest) ≡ k g rest
get-put_grid k none rest = refl
get-put_grid k (some s) rest = get-put_size (λ t. k (some t)) s rest

abbrev opened_of : ℤ → ℕ → ℕ → Option Size → Bytes → Option BlobOpenResult
opened_of size g o grid format = some (record {
  size = size;
  cursor = record { generation = g; offset = o };
  format = format;
  grid = grid;
})

abbrev pub blob_opens : Codec BlobOpenResult
blob_opens = record {
  encode = λ r. put_int r.size (r.cursor.generation ∷ r.cursor.offset ∷ put_grid r.grid r.format);
  decode = get_int (λ n. get_nat (λ g. get_nat (λ o. get_grid (opened_of n g o))));
}

pub blob_opens-IsCodec : IsCodec blob_opens
blob_opens-IsCodec r =
    get-put_int (λ n. get_nat (λ g. get_nat (λ o. get_grid (opened_of n g o)))) r.size
      (r.cursor.generation ∷ r.cursor.offset ∷ put_grid r.grid r.format)
    ∙ get-put_grid (opened_of r.size r.cursor.generation r.cursor.offset) r.grid r.format

abbrev result_of : ℕ → ℕ → Bool → Option Size → Bytes → Option OutputReadResult
result_of g o at_end size rest =
    some (record { cursor = record { generation = g; offset = o }; eof = at_end; size = size })

abbrev pub output_results : Codec OutputReadResult
output_results = record {
  encode = λ r. r.cursor.generation ∷ r.cursor.offset ∷ put_bool r.eof (put_grid r.size []);
  decode = get_nat (λ g. get_nat (λ o. get_bool (λ b. get_grid (result_of g o b))));
}

pub output_results-IsCodec : IsCodec output_results
output_results-IsCodec r =
    get-put_bool (λ b. get_grid (result_of r.cursor.generation r.cursor.offset b)) r.eof
      (put_grid r.size [])
    ∙ get-put_grid (result_of r.cursor.generation r.cursor.offset r.eof) r.size []

-- The parameters and results of the other calls.
abbrev pub texts : Codec Bytes
texts = record { encode = λ name. 0 ∷ name; decode = get_nat (λ n name. some name) }

pub texts-IsJson : IsJson texts
texts-IsJson = record { back = λ name. refl; nonempty = λ name e. absurd (cc) }

abbrev pub resizes : Codec ResizeParams
resizes = record {
  encode = λ p. put_int p.cols (put_int p.rows p.name);
  decode = get_int (λ c. get_int (λ r name. some (record { name = name; cols = c; rows = r })));
}

put_int-nonempty : (z : ℤ) (rest : Bytes) → put_int z rest ≢ []
put_int-nonempty (pos n) rest e = cc
put_int-nonempty (negsuc n) rest e = cc

pub resizes-IsJson : IsJson resizes
resizes-IsJson = record {
  back = λ p.
      get-put_int (λ c. get_int (λ r name. some (record { name = name; cols = c; rows = r })))
        p.cols (put_int p.rows p.name)
      ∙ get-put_int (λ r name. some (record { name = name; cols = p.cols; rows = r })) p.rows
          p.name;
  nonempty = λ p. put_int-nonempty p.cols (put_int p.rows p.name);
}

abbrev pub signals : Codec SignalParams
signals = record {
  encode = λ p. put_int p.signal p.name;
  decode = get_int (λ s name. some (record { name = name; signal = s }));
}

pub signals-IsJson : IsJson signals
signals-IsJson = record {
  back = λ p. get-put_int (λ s name. some (record { name = name; signal = s })) p.signal p.name;
  nonempty = λ p. put_int-nonempty p.signal p.name;
}

abbrev pub prunes : Codec PruneParams
prunes = record {
  encode = λ p. p.before.generation ∷ p.before.offset ∷ p.name;
  decode = get_nat (λ g.
      get_nat
        (λ o name. some (record { name = name; before = record { generation = g; offset = o } })));
}

pub prunes-IsJson : IsJson prunes
prunes-IsJson = record { back = λ p. refl; nonempty = λ p e. absurd (cc) }

abbrev pub infos : Codec SessionInfo
infos = record {
  encode = λ i. i.created_at ∷ i.name;
  decode = get_nat (λ t name. some (record { name = name; created_at = t }));
}

pub infos-IsJson : IsJson infos
infos-IsJson = record { back = λ i. refl; nonempty = λ i e. absurd (cc) }

abbrev pub sizes : Codec Size
sizes = record { encode = λ s. put_size s []; decode = get_size (λ s rest. some s) }

pub sizes-IsJson : IsJson sizes
sizes-IsJson = record {
  back = λ s. get-put_size (λ t rest. some t) s [];
  nonempty = λ s. put_int-nonempty s.columns (put_int s.rows []);
}

abbrev pub cursors : Codec Cursor
cursors = record {
  encode = λ c. c.generation ∷ c.offset ∷ [];
  decode = get_nat (λ g. get_nat (λ o rest. some (record { generation = g; offset = o })));
}

pub cursors-IsJson : IsJson cursors
cursors-IsJson = record { back = λ c. refl; nonempty = λ c e. absurd (cc) }

-- The end of a status: an exit, if there is one.
abbrev put_exit : Option ExitError → Bytes
put_exit none = 0 ∷ []
put_exit (some e) = 1 ∷ put_int e.code (put_bool e.unknown e.signal)

abbrev exited_with : Bool → ℤ → Bool → Bytes → Option Status
exited_with alive code unknown signal = some (record {
  alive = alive;
  exit = some (record { code = code; signal = signal; unknown = unknown });
})

abbrev get_exit : Bool → Bytes → Option Status
get_exit alive (zero ∷ rest) = some (record { alive = alive; exit = none })
get_exit alive (suc n ∷ rest) = get_int (λ code. get_bool (exited_with alive code)) rest
get_exit alive [] = none

get-put_exit :
    (alive : Bool) (e : Option ExitError)
    → get_exit alive (put_exit e) ≡ some (record { alive = alive; exit = e })
get-put_exit alive none = refl
get-put_exit alive (some e) =
    get-put_int (λ code. get_bool (exited_with alive code)) e.code (put_bool e.unknown e.signal)
    ∙ get-put_bool (exited_with alive e.code) e.unknown e.signal

abbrev pub statuses : Codec Status
statuses = record { encode = λ s. put_bool s.alive (put_exit s.exit); decode = get_bool get_exit }

put_bool-nonempty : (b : Bool) (rest : Bytes) → put_bool b rest ≢ []
put_bool-nonempty false rest e = cc
put_bool-nonempty true rest e = cc

pub statuses-IsJson : IsJson statuses
statuses-IsJson = record {
  back = λ s. get-put_bool get_exit s.alive (put_exit s.exit) ∙ get-put_exit s.alive s.exit;
  nonempty = λ s. put_bool-nonempty s.alive (put_exit s.exit);
}
