-- ===== src/GrpcServer/Version/Majors.antt =====
-- The major versions that internal/grpcserver/version_negotiate.go reads.
use claude_mnemonic_plus.Prelude.{
  ℕ, suc, zero, ◌+◌, ◌*◌, ◌≤◌, ◌≡◌, refl, ap, Bool, true, false, List, [], ◌∷◌, ◌++◌, Option, none,
  some, ◌==◌, pos, bytes_eq, cut_prefix, before, map, length, All, arith,
}
use claude_mnemonic_plus.GrpcServer.Version.{
  read_digits, read_number, atoi, negotiated, trim_v, natural_part, parse_major_version,
  negotiate_version,
}

unfoldable pub ten_to : ℕ → ℕ
ten_to zero = 1
ten_to (suc n) = 10 * ten_to n

-- The number that digits stand for, each with its power of ten.
unfoldable pub number_of : List ℕ → ℕ
number_of [] = 0
number_of (d ∷ ds) = d * ten_to (length ds) + number_of ds

abbrev pub digit_bytes : List ℕ → List ℕ
digit_bytes ds = map (λ d. b'0' + d) ds

abbrev pub IsDigits : List ℕ → Type 0
IsDigits ds = All (λ d. d ≤ 9) ds

expand : (acc d t : ℕ) → (acc * 10 + d) * t ≡ acc * (10 * t) + d * t
expand acc d t = ground arith

read_digits-digit_bytes :
    (acc : ℕ) (ds : List ℕ)
    → IsDigits ds
    → read_digits acc (digit_bytes ds) ≡ some (acc * ten_to (length ds) + number_of ds)
unfolding read_digits ten_to number_of
read_digits-digit_bytes acc [] h = ap some (omega arith)
read_digits-digit_bytes acc (d ∷ ds) h =
    let rest = read_digits-digit_bytes (acc * 10 + d) ds h.1 in
    let e = expand acc d (ten_to (length ds)) in ground (arith, h.0, rest, e)

-- What may follow the major version.
abbrev pub dotted : Option (List ℕ) → List ℕ
dotted none = []
dotted (some rest) = b'.' ∷ rest

-- A version: with a leading v or not, the digits of the major version, and the rest.
abbrev pub version_text : Bool → List ℕ → Option (List ℕ) → List ℕ
version_text true ds rest = b'v' ∷ (digit_bytes ds ++ dotted rest)
version_text false ds rest = digit_bytes ds ++ dotted rest

before-digit_bytes :
    (ds : List ℕ) (rest : Option (List ℕ))
    → IsDigits ds
    → before b'.' (digit_bytes ds ++ dotted rest) ≡ digit_bytes ds
unfolding before
before-digit_bytes [] none h = refl
before-digit_bytes [] (some rest) h = refl
before-digit_bytes (d ∷ ds) rest h = ground (arith, h.0, before-digit_bytes ds rest h.1)

trim_v-version_text :
    (v : Bool) (d : ℕ) (ds : List ℕ) (rest : Option (List ℕ))
    → d ≤ 9
    → trim_v (version_text v (d ∷ ds) rest) ≡ digit_bytes (d ∷ ds) ++ dotted rest
unfolding trim_v cut_prefix
trim_v-version_text true d ds rest h = refl
trim_v-version_text false d ds rest h = ground arith

atoi-digit_bytes :
    (d : ℕ) (ds : List ℕ)
    → IsDigits (d ∷ ds)
    → number_of (d ∷ ds) ≤ 9223372036854775807
    → atoi (digit_bytes (d ∷ ds)) ≡ some (pos (number_of (d ∷ ds)))
unfolding atoi read_number
atoi-digit_bytes d ds h most =
    let read = read_digits-digit_bytes 0 (d ∷ ds) h in ground (arith, h.0, read, most)

version_text_some :
    (v : Bool) (d : ℕ) (ds : List ℕ) (rest : Option (List ℕ))
    → bytes_eq (version_text v (d ∷ ds) rest) [] ≡ false
unfolding bytes_eq
version_text_some true d ds rest = refl
version_text_some false d ds rest = refl

module _ (trim_space : List ℕ → List ℕ) where
  parse_major_version-version_text :
      (v : Bool) (d : ℕ) (ds : List ℕ) (rest : Option (List ℕ))
      → IsDigits (d ∷ ds)
      → number_of (d ∷ ds) ≤ 9223372036854775807
      → trim_space (version_text v (d ∷ ds) rest) ≡ version_text v (d ∷ ds) rest
      → parse_major_version trim_space (version_text v (d ∷ ds) rest) ≡ some (number_of (d ∷ ds))
  unfolding parse_major_version natural_part bytes_eq
  parse_major_version-version_text true d ds rest h most same =
      let t = trim_v-version_text true d ds rest h.0 in
      let b = before-digit_bytes (d ∷ ds) rest h in
      let a = atoi-digit_bytes d ds h most in ground (arith, same, t, b, a)
  parse_major_version-version_text false d ds rest h most same =
      let t = trim_v-version_text false d ds rest h.0 in
      let b = before-digit_bytes (d ∷ ds) rest h in
      let a = atoi-digit_bytes d ds h most in ground (arith, same, t, b, a)

  -- For a client's and a server's version of the form v1.2.3 or 1.2.3 with nothing around it, and
  -- major versions that are integers of 64 bits, NegotiateVersion answers that they are
  -- compatible exactly if the numbers that the digits before the first dot stand for are the
  -- same.
  pub negotiate_version-version_text :
      (v w : Bool) (d e : ℕ) (ds es : List ℕ) (rest more : Option (List ℕ))
      → IsDigits (d ∷ ds)
      → IsDigits (e ∷ es)
      → number_of (d ∷ ds) ≤ 9223372036854775807
      → number_of (e ∷ es) ≤ 9223372036854775807
      → trim_space (version_text v (d ∷ ds) rest) ≡ version_text v (d ∷ ds) rest
      → trim_space (version_text w (e ∷ es) more) ≡ version_text w (e ∷ es) more
      → negotiate_version trim_space
          (some (version_text w (e ∷ es) more))
          (version_text v (d ∷ ds) rest)
        ≡ negotiated (number_of (d ∷ ds) == number_of (e ∷ es)) (version_text w (e ∷ es) more)
  unfolding negotiate_version bytes_eq
  negotiate_version-version_text v w d e ds es rest more hd he md me same1 same2 =
      let client = parse_major_version-version_text v d ds rest hd md same1 in
      let server = parse_major_version-version_text w e es more he me same2 in
      let full = version_text_some v d ds rest in rw (full, client, server) refl
