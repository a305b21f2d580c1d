-- ===== src/Pwd/Examples.antt =====
-- pwd.go: reports of a shell.
use ghostline.Prelude.{
  ℕ, ◌≡◌, ◌⊎◌, inr, refl, Bool, true, [], ◌∷◌, Bytes, Option, some, arith, bytes_eq, leb, ◌&&◌,
}
use ghostline.Text.Search.{has_prefix, index_byte}
use ghostline.Text.Space.{to_lower}
use ghostline.Pwd.{is_local_host, parse_reported_pwd, percent_decode, short_hostname}
use ghostline.Pwd.Decode.{percent_encode, percent_decode-encode}
use ghostline.Pwd.Report.{
  report, parse_reported_pwd-encode, parse_reported_pwd-remote, parse_reported_pwd-IsReport,
}

-- The tables of Unicode on ASCII text.
abbrev equal_fold : Bytes → Bytes → Bool
equal_fold a b = bytes_eq (to_lower a) (to_lower b)

abbrev unreserved : ℕ → Bool
unreserved c = leb b'/' c && leb c b'z'

abbrev file : Bytes
file = b'i' ∷ b'l' ∷ b'e' ∷ []

-- "a b"
abbrev spaced : Bytes
spaced = b'a' ∷ b' ' ∷ b'b' ∷ []

abbrev machine : Option Bytes
machine = some (b'm' ∷ b'1' ∷ b'.' ∷ b'x' ∷ [])

percent_decode-encode_test : percent_decode (percent_encode unreserved spaced) ≡ some spaced
percent_decode-encode_test =
    percent_decode-encode unreserved spaced refl (omega arith, (omega arith, (omega arith, tt)))

parse_reported_pwd-encode_example :
    parse_reported_pwd to_lower equal_fold machine
      (report (b'f' ∷ file) (b'M' ∷ b'1' ∷ []) (percent_encode unreserved (b'/' ∷ spaced)))
    ≡ b'/' ∷ spaced
unfolding is_local_host short_hostname index_byte
parse_reported_pwd-encode_example =
    parse_reported_pwd-encode to_lower equal_fold machine unreserved b'f' file (b'M' ∷ b'1' ∷ [])
      spaced (refl, (refl, (refl, (refl, tt)))) (refl, (refl, tt)) (inr refl) refl refl
      (omega arith, (omega arith, (omega arith, (omega arith, tt)))) (ground arith)
      (
        (omega arith, omega arith),
        (
          (omega arith, omega arith),
          (
            (omega arith, omega arith),
            (
              (omega arith, omega arith),
              (
                (omega arith, omega arith),
                (
                  (omega arith, omega arith),
                  (
                    (omega arith, omega arith),
                    (
                      (omega arith, omega arith),
                      (
                        (omega arith, omega arith),
                        (
                          (omega arith, omega arith),
                          (
                            (omega arith, omega arith),
                            (
                              (omega arith, omega arith),
                              (
                                (omega arith, omega arith),
                                ((omega arith, omega arith), ((omega arith, omega arith), tt)),
                              ),
                            ),
                          ),
                        ),
                      ),
                    ),
                  ),
                ),
              ),
            ),
          ),
        ),
      )

parse_reported_pwd-remote_test :
    parse_reported_pwd to_lower equal_fold machine
      (report (b'f' ∷ file) (b'm' ∷ b'2' ∷ []) (b'/' ∷ b'a' ∷ []))
    ≡ []
unfolding is_local_host short_hostname index_byte
parse_reported_pwd-remote_test =
    parse_reported_pwd-remote to_lower equal_fold machine b'f' b'm' file (b'2' ∷ []) (b'a' ∷ [])
      (refl, (refl, (refl, (refl, tt)))) (refl, (refl, tt)) refl
      (
        (omega arith, omega arith),
        (
          (omega arith, omega arith),
          (
            (omega arith, omega arith),
            (
              (omega arith, omega arith),
              (
                (omega arith, omega arith),
                (
                  (omega arith, omega arith),
                  (
                    (omega arith, omega arith),
                    (
                      (omega arith, omega arith),
                      (
                        (omega arith, omega arith),
                        ((omega arith, omega arith), ((omega arith, omega arith), tt)),
                      ),
                    ),
                  ),
                ),
              ),
            ),
          ),
        ),
      )

parse_reported_pwd-IsReport_test :
    (parse_reported_pwd to_lower equal_fold machine (b'x' ∷ []) ≡ [])
    ⊎ (has_prefix (parse_reported_pwd to_lower equal_fold machine (b'x' ∷ [])) (b'/' ∷ []) ≡ true)
parse_reported_pwd-IsReport_test =
    parse_reported_pwd-IsReport to_lower equal_fold machine (b'x' ∷ [])
