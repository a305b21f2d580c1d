-- ===== src/Size.antt =====
-- size.go: the terminal grid size and its validation.
use ghostline.Prelude.{
  ℕ, zero, suc, ◌≤◌, ◌<◌, ◌≡◌, ◌↔◌, ◌⊎◌, Bool, true, ◌&&◌, ◌||◌, arith, if◌then◌else◌, Bool-cases,
  [], inl, inr,
}
use ghostline.Prelude.Int.{ℤ, pos, negsuc, int_eq, int_eq_iff, nonpositive, exceeds}
use ghostline.Errors.{failure, Result, ok, err}

abbrev pub default_columns : ℕ
default_columns = 120

abbrev pub default_rows : ℕ
default_rows = 36

abbrev pub max_terminal_dimension : ℕ
max_terminal_dimension = 65535

pub record Size : Type 0 where
  pub columns : ℤ
  pub rows : ℤ

abbrev pub zero_size : Size
zero_size = record { columns = pos 0; rows = pos 0 }

abbrev pub size_eq : Size → Size → Bool
size_eq s t = int_eq s.columns t.columns && int_eq s.rows t.rows

pub size_eq_iff : (s t : Size) → (size_eq s t ≡ true) ↔ (s ≡ t)
size_eq_iff s t = ground (arith, int_eq_iff s.columns t.columns, int_eq_iff s.rows t.rows)

unfoldable pub validate : Size → Result (Unit {0})
validate s =
    if nonpositive s.columns
      || nonpositive s.rows
      || exceeds s.columns max_terminal_dimension
      || exceeds s.rows max_terminal_dimension
    then err (failure [])
    else ok tt

unfoldable pub resolve : Size → Size → Result Size
unfolding validate
resolve s fallback =
    let chosen = if int_eq s.columns (pos 0) && int_eq s.rows (pos 0) then fallback else s in
    elim (validate chosen) [ ok _ ↦ ok chosen | err e ↦ err e ]

-- A dimension that fits a `uint16` and is not zero: what `pty.Winsize` can carry.
abbrev pub IsDimension : ℤ → Type 0
IsDimension (pos n) = (0 < n) × (n ≤ max_terminal_dimension)
IsDimension (negsuc n) = ⊥

abbrev pub IsValidSize : Size → Type 0
IsValidSize s = IsDimension s.columns × IsDimension s.rows

validate_parts :
    (c r : ℤ)
    → (validate (record { columns = c; rows = r }) ≡ ok tt) ↔ (IsDimension c × IsDimension r)
unfolding validate
validate_parts (pos zero) r = ((λ h. cc), (λ h. absurd (omega arith)))
validate_parts (pos (suc m)) (pos zero) = ground arith
validate_parts (pos (suc m)) (pos (suc n)) = ground arith
validate_parts (pos (suc m)) (negsuc n) = ground arith
validate_parts (negsuc m) r = ((λ h. cc), (λ h. elim h.0 [ ]))

-- A size passes exactly when both dimensions are from 1 to 65535, so that the conversion to
-- `uint16` in `pty.Winsize` loses nothing.
pub validate_exact : (s : Size) → (validate s ≡ ok tt) ↔ IsValidSize s
validate_exact s = validate_parts s.columns s.rows

pub resolve-IsValidSize : (s fallback : Size) {t : Size} → resolve s fallback ≡ ok t → IsValidSize t
unfolding resolve
resolve-IsValidSize s fallback {t} h =
    elim (Bool-cases (int_eq s.columns (pos 0) && int_eq s.rows (pos 0))) [
      | inl e ↦ ground (arith, validate_exact fallback)
      | inr e ↦ ground (arith, validate_exact s)
    ]

validate_cases : (s : Size) → (validate s ≡ ok tt) ⊎ (validate s ≡ err (failure []))
unfolding validate
validate_cases s = ground arith

-- The size that `resolve` looks at: the zero size stands for the fallback.
abbrev pub chosen : Size → Size → Size
chosen s fallback = if size_eq s zero_size then fallback else s

-- `resolve` returns the chosen size if both its dimensions are from 1 to 65535, and fails
-- otherwise; there is no other outcome.
pub resolve_outcome :
    (s fallback : Size)
    → (IsValidSize (chosen s fallback) × (resolve s fallback ≡ ok (chosen s fallback)))
      ⊎ ((¬ IsValidSize (chosen s fallback)) × (resolve s fallback ≡ err (failure [])))
unfolding resolve
resolve_outcome s fallback =
    let t = chosen s fallback in
    elim (validate_cases t) [
      | inl e ↦ inl ((validate_exact t).0 e, rw (e, resolve))
      | inr e ↦ inr ((λ v. ground (arith, (validate_exact t).1 v)), rw (e, resolve))
    ]
