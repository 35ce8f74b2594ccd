-- ===== src/GrpcServer/Version.antt =====
-- NegotiateVersion of internal/grpcserver/version_negotiate.go. Versions are lists of bytes, and
-- strings.TrimSpace is a parameter.
pub mod Majors
mod Tests
use claude_mnemonic_plus.Prelude.{
  ℕ, suc, ◌+◌, ◌-◌, ◌*◌, Bool, true, false, ◌&&◌, List, [], ◌∷◌, Option, none, some, leb, ltb, ◌==◌,
  ℤ, pos, negsuc, if◌then◌else◌, bytes_eq, cut_prefix, before, codes,
}

-- The decimal digits that strconv.Atoi reads, with the value of those before.
unfoldable pub read_digits : ℕ → List ℕ → Option ℕ
read_digits acc [] = some acc
read_digits acc (b ∷ bs) =
    let rest = read_digits (acc * 10 + (b - b'0')) bs in
    if leb b'0' b && leb b b'9' then rest else none

-- A number of one digit or more, up to a limit.
unfoldable pub read_number : ℕ → List ℕ → Option ℕ
read_number most [] = none
read_number most (b ∷ bs) = elim (read_digits 0 (b ∷ bs)) [
  | none ↦ none
  | some n ↦ if leb n most then some n else none
]

-- The integer -n.
unfoldable pub negate : ℕ → ℤ
negate n = if n == 0 then pos 0 else negsuc (n - 1)

-- strconv.Atoi, for integers of 64 bits.
unfoldable pub atoi : List ℕ → Option ℤ
atoi [] = none
atoi (b ∷ bs) =
    if b == b'-'
    then elim (read_number 9223372036854775808 bs) [ none ↦ none | some n ↦ some (negate n) ]
    else elim (read_number 9223372036854775807 (if b == b'+' then bs else b ∷ bs)) [
      | none ↦ none
      | some n ↦ some (pos n)
    ]

-- The answer of NegotiateVersion: one of three errors, or whether the versions are compatible,
-- with the server's version.
pub data Negotiation : Type 0 where
  invalid_argument : Negotiation
  unavailable : Negotiation
  internal_error : Negotiation
  negotiated : Bool → List ℕ → Negotiation

-- strings.TrimPrefix(trimmed, "v")
unfoldable pub trim_v : List ℕ → List ℕ
trim_v s = elim (cut_prefix (codes "v") s) [ none ↦ s | some t ↦ t ]

-- A major version that is not negative.
unfoldable pub natural_part : Option ℤ → Option ℕ
natural_part none = none
natural_part (some (pos n)) = some n
natural_part (some (negsuc n)) = none

module _ (trim_space : List ℕ → List ℕ) where
  -- parseMajorVersion, `none` for an error.
  unfoldable pub parse_major_version : List ℕ → Option ℕ
  parse_major_version version =
      let trimmed = trim_space version in
      let first = before b'.' (trim_v trimmed) in
      if bytes_eq trimmed []
      then none
      else if bytes_eq first []
      then none
      else natural_part (atoi first)

  -- NegotiateVersion: the server's version is missing where the server has no handler.
  unfoldable pub negotiate_version : Option (List ℕ) → List ℕ → Negotiation
  negotiate_version server client = if bytes_eq client [] then invalid_argument else elim server [
    | none ↦ unavailable
    | some server_version ↦ elim (parse_major_version client) [
      | none ↦ invalid_argument
      | some client_major ↦ elim (parse_major_version server_version) [
        | none ↦ internal_error
        | some server_major ↦ negotiated (client_major == server_major) server_version
      ]
    ]
  ]
