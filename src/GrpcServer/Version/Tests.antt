-- ===== src/GrpcServer/Version/Tests.antt =====
-- Versions, and the theorem at two of them.
use claude_mnemonic_plus.Prelude.{
  ℕ, ◌≡◌, refl, true, false, List, [], ◌∷◌, none, some, arith, bytes_eq, cut_prefix, before, codes,
  negsuc,
}
use claude_mnemonic_plus.GrpcServer.Version.{
  read_digits, read_number, negate, atoi, invalid_argument, negotiated, trim_v, natural_part,
  parse_major_version, negotiate_version,
}
use claude_mnemonic_plus.GrpcServer.Version.Majors.{
  ten_to, number_of, negotiate_version-version_text,
}

program : Unit {0}
unfolding read_digits read_number negate atoi trim_v natural_part parse_major_version
    negotiate_version ten_to number_of bytes_eq cut_prefix before
program = tt

abbrev trimmed : List ℕ → List ℕ
trimmed s = s

not_too_large : atoi (codes "9223372036854775808") ≡ none
unfolding program
not_too_large = refl

negative : atoi (codes "-12") ≡ some (negsuc 11)
unfolding program
negative = refl

no_major : negotiate_version trimmed (some (codes "4.0.0")) (codes "v.1") ≡ invalid_argument
unfolding program
no_major = refl

negotiate_version-version_text_example :
    negotiate_version trimmed (some (codes "12.0.1")) (codes "v12")
    ≡ negotiated true (codes "12.0.1")
unfolding program
negotiate_version-version_text_example =
    negotiate_version-version_text trimmed true false 1 1 (2 ∷ []) (2 ∷ []) none
      (some (codes "0.1")) (omega arith, (omega arith, tt)) (omega arith, (omega arith, tt))
      (omega arith) (omega arith) refl refl
