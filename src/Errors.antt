-- ===== src/Errors.antt =====
-- errors.go: the sentinel errors, with the errors of the language's library that the program
-- tests for. An error wrapped with `%w` is the error that it wraps: its text is left out, since
-- the program only looks through it (`errors.Is`).
use ghostline.Prelude.{ℕ, Bytes, ◌≡◌, ◌⊎◌, refl, inl, inr}

pub data Error : Type 0 where
  unavailable closed session_exists session_not_found session_closed : Error
  invalid_session_name invalid_signal invalid_cursor cursor_expired : Error
  frame_too_large protocol_mismatch : Error
  process_done : Error  -- os.ErrProcessDone
  closed_pipe : Error  -- io.ErrClosedPipe
  eof : Error  -- io.EOF
  unexpected_eof : Error  -- io.ErrUnexpectedEOF
  short_write : Error  -- io.ErrShortWrite
  canceled : Error  -- what ctx.Err() returns
  os_error : ℕ → Error  -- an errno
  failure : Bytes → Error  -- errors.New and fmt.Errorf without %w

-- A call's results `(v, err)`: the value where `err` is nil.
pub data Result {ℓ} (V : Type ℓ) : Type ℓ where
  err : Error → Result V
  ok : V → Result V

-- `if err != nil { return err }` after a call, with its value bound or dropped.
infixl 4 ◌>>=◌ ◌>>◌
abbrev pub ◌>>=◌ {ℓ κ} : {V : Type ℓ} {W : Type κ} → Result V → (V → Result W) → Result W
err cause >>= next = err cause
ok value >>= next = next value

abbrev pub ◌>>◌ {ℓ κ} : {V : Type ℓ} {W : Type κ} → Result V → Result W → Result W
err cause >> next = err cause
ok _ >> next = next

pub Result-cases {ℓ} :
    {V : Type ℓ} (r : Result V) → ((e : Error) × (r ≡ err e)) ⊎ ((v : V) × (r ≡ ok v))
Result-cases (err e) = inl (e, refl)
Result-cases (ok v) = inr (v, refl)
