-- ===== src/Pwd/Report.antt =====
-- pwd.go: which reports give a directory, and which.
use ghostline.Prelude.{
  ℕ, suc, ◌+◌, ◌≡◌, ◌≢◌, ◌⊎◌, refl, ap, ◌∙◌, sym, Bool, true, false, not, ◌&&◌, [], ◌∷◌, ◌++◌,
  Bytes, length, take, drop, Option, none, some, ◌==◌, if◌then◌else◌, arith, Bool-cases,
  Option-cases, inl, inr, get_elem?, drop-append_length, take-append_length, ==_refl,
}
use ghostline.Text.Search.{index, has_prefix, index_byte}
use ghostline.Text.Split.{Avoids}
use ghostline.Text.Space.{trim_space, reverse}
use ghostline.Text.Trim.{IsGraphic, trim_space-IsGraphic, reverse-reverse}
use ghostline.Pwd.{
  percent_decode, colon_slashes, split_reported_scheme, trim_quotes_left, trim_quotes,
  absolute_path, is_local_host, decoded_path, host_path, parse_reported_pwd,
}
use ghostline.Pwd.Decode.{percent_encode, AreBytes, percent_decode-encode}

abbrev pub report : Bytes → Bytes → Bytes → Bytes
report scheme host path = scheme ++ (colon_slashes ++ (host ++ path))

index-colon_slashes :
    (scheme rest : Bytes)
    → Avoids b':' scheme
    → index (scheme ++ (colon_slashes ++ rest)) colon_slashes ≡ some (length scheme)
unfolding index has_prefix
index-colon_slashes [] rest a = refl
index-colon_slashes (c ∷ scheme) rest a = rw (a.0, index-colon_slashes scheme rest a.1) refl

index_byte-first :
    (c : ℕ) (host rest : Bytes)
    → Avoids c host
    → index_byte (host ++ (c ∷ rest)) c ≡ some (length host)
unfolding index_byte
index_byte-first c [] rest a = rw (==_refl c) refl
index_byte-first c (x ∷ host) rest a = rw (a.0, index_byte-first c host rest a.1) refl

suc_not_zero : (n : ℕ) → (suc n == 0) ≡ false
suc_not_zero n = ground arith

split_reported_scheme-report :
    (c : ℕ) (scheme host path : Bytes)
    → Avoids b':' (c ∷ scheme)
    → split_reported_scheme (report (c ∷ scheme) host path) ≡ some (host ++ path)
unfolding split_reported_scheme
split_reported_scheme-report c scheme host path a =
    rw
      (
        index-colon_slashes (c ∷ scheme) (host ++ path) a,
        suc_not_zero (length scheme),
        split_reported_scheme,
      )
      (ap some (drop-append_length (c ∷ scheme) (colon_slashes ++ (host ++ path)) 3))

trim_quotes_left-plain :
    (text : Bytes) → get_elem? text 0 ≢ some b'"' → trim_quotes_left text ≡ text
unfolding trim_quotes_left
trim_quotes_left-plain [] h = refl
trim_quotes_left-plain (c ∷ text) h = ground arith

-- The last byte is not a double quote.
abbrev pub EndsUnquoted : Bytes → Type 0
EndsUnquoted text = get_elem? (reverse text) 0 ≢ some b'"'

absolute_path-plain :
    (path : Bytes) → EndsUnquoted (b'/' ∷ path) → absolute_path (b'/' ∷ path) ≡ b'/' ∷ path
unfolding absolute_path trim_quotes trim_quotes_left has_prefix
absolute_path-plain path h =
    rw
      (
        trim_quotes_left-plain (reverse (b'/' ∷ path)) h,
        reverse-reverse (b'/' ∷ path),
        absolute_path,
        trim_quotes,
      )
      refl

drop-length : (xs ys : Bytes) → drop (length xs) (xs ++ ys) ≡ ys
drop-length xs ys =
    ap (λ k. drop k (xs ++ ys)) {x = length xs} {y = length xs + 0} (omega arith)
    ∙ drop-append_length xs ys 0

abbrev pub name_of : Option Bytes → Bytes
name_of none = []
name_of (some name) = name

module _ (to_lower : Bytes → Bytes) (equal_fold : Bytes → Bytes → Bool) where
  host_path_found :
      (rest host path local_name : Bytes) (i : ℕ)
      → has_prefix rest (b'/' ∷ []) ≡ false
      → index_byte rest b'/' ≡ some i
      → take i rest ≡ host
      → drop i rest ≡ path
      → (length host == 0) ≡ false
      → host_path to_lower equal_fold rest local_name ≡ (
          if not (is_local_host to_lower equal_fold host local_name)
          then []
          else decoded_path to_lower equal_fold path)
  unfolding host_path
  host_path_found rest host path local_name i p e t d n = rw (p, e, t, d, n, host_path) refl

  host_path-host :
      (c : ℕ) (host path local_name : Bytes)
      → Avoids b'/' (c ∷ host)
      → host_path to_lower equal_fold (c ∷ host ++ (b'/' ∷ path)) local_name ≡ (
          if not (is_local_host to_lower equal_fold (c ∷ host) local_name)
          then []
          else decoded_path to_lower equal_fold (b'/' ∷ path))
  unfolding has_prefix
  host_path-host c host path local_name a =
      host_path_found (c ∷ host ++ (b'/' ∷ path)) (c ∷ host) (b'/' ∷ path) local_name
        (length (c ∷ host)) (rw a.0 refl) (index_byte-first b'/' (c ∷ host) path a)
        (take-append_length (c ∷ host) (b'/' ∷ path)) (drop-length (c ∷ host) (b'/' ∷ path))
        (suc_not_zero (length host))

  host_path-local :
      (host path local_name : Bytes)
      → Avoids b'/' host
      → (host ≡ []) ⊎ (is_local_host to_lower equal_fold host local_name ≡ true)
      → host_path to_lower equal_fold (host ++ (b'/' ∷ path)) local_name
        ≡ decoded_path to_lower equal_fold (b'/' ∷ path)
  unfolding host_path has_prefix
  host_path-local [] path local_name a h = refl
  host_path-local (c ∷ host) path local_name a (inl e) = cc
  host_path-local (c ∷ host) path local_name a (inr e) =
      host_path-host c host path local_name a ∙ (rw e refl)

  parse_found :
      (hostname : Option Bytes) (raw value rest : Bytes)
      → trim_space raw ≡ value
      → (length value == 0) ≡ false
      → split_reported_scheme value ≡ some rest
      → parse_reported_pwd to_lower equal_fold hostname raw
        ≡ host_path to_lower equal_fold rest (name_of hostname)
  unfolding parse_reported_pwd
  parse_found none raw value rest t n e = rw (t, n, e, parse_reported_pwd) refl
  parse_found (some name) raw value rest t n e = rw (t, n, e, parse_reported_pwd) refl

  parse_report :
      (hostname : Option Bytes) (c : ℕ) (scheme host path : Bytes)
      → Avoids b':' (c ∷ scheme)
      → IsGraphic (report (c ∷ scheme) host path)
      → parse_reported_pwd to_lower equal_fold hostname (report (c ∷ scheme) host path)
        ≡ host_path to_lower equal_fold (host ++ path) (name_of hostname)
  parse_report hostname c scheme host path a g =
      let raw = report (c ∷ scheme) host path in
      parse_found hostname raw raw (host ++ path) (trim_space-IsGraphic raw g) (suc_not_zero _)
        (split_reported_scheme-report c scheme host path a)

  decoded_path-encode :
      (safe : ℕ → Bool) (path : Bytes)
      → safe b'%' ≡ false
      → AreBytes (b'/' ∷ path)
      → EndsUnquoted (b'/' ∷ path)
      → decoded_path to_lower equal_fold (percent_encode safe (b'/' ∷ path)) ≡ b'/' ∷ path
  unfolding decoded_path
  decoded_path-encode safe path s b u =
      rw (percent_decode-encode safe (b'/' ∷ path) s b, decoded_path) (absolute_path-plain path u)

  -- A report whose host is empty or names this machine gives the directory that was encoded:
  -- any text that begins with a slash and does not end with a double quote, whichever of its
  -- bytes are escaped, if the slash is not and the percent sign is, and the report is printable.
  pub parse_reported_pwd-encode :
      (hostname : Option Bytes) (safe : ℕ → Bool) (c : ℕ) (scheme host path : Bytes)
      → Avoids b':' (c ∷ scheme)
      → Avoids b'/' host
      → (host ≡ []) ⊎ (is_local_host to_lower equal_fold host (name_of hostname) ≡ true)
      → safe b'%' ≡ false
      → safe b'/' ≡ true
      → AreBytes (b'/' ∷ path)
      → EndsUnquoted (b'/' ∷ path)
      → IsGraphic (report (c ∷ scheme) host (percent_encode safe (b'/' ∷ path)))
      → parse_reported_pwd to_lower equal_fold hostname
          (report (c ∷ scheme) host (percent_encode safe (b'/' ∷ path)))
        ≡ b'/' ∷ path
  parse_reported_pwd-encode hostname safe c scheme host path a b l s p bytes u g =
      let slash : percent_encode safe (b'/' ∷ path) ≡ b'/' ∷ percent_encode safe path = rw p refl in
      parse_report hostname c scheme host (percent_encode safe (b'/' ∷ path)) a g
      ∙ ap (λ text. host_path to_lower equal_fold (host ++ text) (name_of hostname)) slash
      ∙ host_path-local host (percent_encode safe path) (name_of hostname) b l
      ∙ ap (decoded_path to_lower equal_fold) (sym slash)
      ∙ decoded_path-encode safe path s bytes u

  -- A report that names another machine gives no directory.
  pub parse_reported_pwd-remote :
      (hostname : Option Bytes) (c d : ℕ) (scheme host path : Bytes)
      → Avoids b':' (c ∷ scheme)
      → Avoids b'/' (d ∷ host)
      → is_local_host to_lower equal_fold (d ∷ host) (name_of hostname) ≡ false
      → IsGraphic (report (c ∷ scheme) (d ∷ host) (b'/' ∷ path))
      → parse_reported_pwd to_lower equal_fold hostname
          (report (c ∷ scheme) (d ∷ host) (b'/' ∷ path))
        ≡ []
  parse_reported_pwd-remote hostname c d scheme host path a b n g =
      parse_report hostname c scheme (d ∷ host) (b'/' ∷ path) a g
      ∙ host_path-host d host path (name_of hostname) b
      ∙ (rw n refl)

  absolute_path_cases :
      (value : Bytes)
      → (absolute_path value ≡ []) ⊎ (has_prefix (absolute_path value) (b'/' ∷ []) ≡ true)
  unfolding absolute_path
  absolute_path_cases value = elim (Bool-cases (has_prefix (trim_quotes value) (b'/' ∷ []))) [
    | inl e ↦ inr (rw (e, absolute_path) e)
    | inr n ↦ inl (rw (n, absolute_path) refl)
  ]

  IsReport : Bytes → Type 0
  IsReport path = (path ≡ []) ⊎ (has_prefix path (b'/' ∷ []) ≡ true)

  decoded_path-IsReport : (path : Bytes) → IsReport (decoded_path to_lower equal_fold path)
  unfolding decoded_path IsReport
  decoded_path-IsReport path = elim (Option-cases (percent_decode path)) [
    | inl e ↦ rw (e, decoded_path) (absolute_path_cases path)
    | inr (decoded, e) ↦ rw (e, decoded_path) (absolute_path_cases decoded)
  ]

  either :
      (remote : Bool) (path : Bytes)
      → IsReport (if remote then [] else decoded_path to_lower equal_fold path)
  unfolding IsReport
  either true path = inl refl
  either false path = decoded_path-IsReport path

  host_path-IsReport :
      (rest local_name : Bytes) → IsReport (host_path to_lower equal_fold rest local_name)
  unfolding host_path IsReport
  host_path-IsReport rest local_name = elim (Bool-cases (has_prefix rest (b'/' ∷ []))) [
    | inl e ↦ rw (e, host_path) (decoded_path-IsReport rest)
    | inr n ↦ elim (Option-cases (index_byte rest b'/')) [
      | inl e ↦ rw (n, e, host_path) (inl refl)
      | inr (i, e) ↦
          rw (n, e, host_path)
            (either
              (not (length (take i rest) == 0)
                && not (is_local_host to_lower equal_fold (take i rest) local_name))
              (drop i rest))
    ]
  ]

  -- Whatever is reported, the result is empty or begins with a slash.
  pub parse_reported_pwd-IsReport :
      (hostname : Option Bytes) (raw : Bytes)
      → (parse_reported_pwd to_lower equal_fold hostname raw ≡ [])
        ⊎ (has_prefix (parse_reported_pwd to_lower equal_fold hostname raw) (b'/' ∷ []) ≡ true)
  unfolding parse_reported_pwd IsReport
  parse_reported_pwd-IsReport hostname raw = elim (Bool-cases (length (trim_space raw) == 0)) [
    | inl e ↦ rw (e, parse_reported_pwd) (inl refl)
    | inr n ↦ elim (Option-cases (split_reported_scheme (trim_space raw))) [
      | inl e ↦ rw (n, e, parse_reported_pwd) (absolute_path_cases (trim_space raw))
      | inr (rest, e) ↦
          rw (parse_found hostname raw (trim_space raw) rest refl n e)
            (host_path-IsReport rest (name_of hostname))
    ]
  ]
