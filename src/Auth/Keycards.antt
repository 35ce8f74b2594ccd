-- ===== src/Auth/Keycards.antt =====
-- The keycards of internal/auth/validator.go: when Validate asks the store, and which row decides.
use claude_mnemonic_plus.Prelude.{
  ℕ, ◌≡◌, ◌≢◌, ap, true, false, some, List, [], ◌∷◌, ◌++◌, map, All, length, take, drop, inl, inr,
  Bool-cases, arith, has_prefix, has_prefix-drop, has_prefix-append, drop-append, length-append,
}
use claude_mnemonic_plus.Auth.{
  token_raw_prefix, token_body_len, token_prefix_len, all_hex, ApiToken, matching, mismatched,
  StoreOutcome, candidates, find_by_prefix, compare_hash, Validator, identity_of, try_candidates,
  well_shaped, lookup_prefix, validate_keycard, is_blank, is_master, validate,
}
use claude_mnemonic_plus.Auth.Validate.{is_master-eq, eq-is_master}

-- A keycard as the dashboard issues it: "engram_" and 32 hexadecimal digits.
abbrev pub Keycard : List ℕ → Type 0
Keycard raw =
    (body : List ℕ) × (raw ≡ token_raw_prefix ++ body)
    × (length body ≡ token_body_len)
    × (all_hex body ≡ true)

well_shaped-Keycard : (raw : List ℕ) → well_shaped raw ≡ true → Keycard raw
unfolding well_shaped
well_shaped-Keycard raw h =
    let body = drop (length token_raw_prefix) raw in
    let p : has_prefix token_raw_prefix raw ≡ true = ground arith in
    let e = has_prefix-drop token_raw_prefix raw p in
    let hex : all_hex body ≡ true = ground arith in
    let len : length raw ≡ 39 = ground arith in
    (body, e, omega (arith, ap length e, length-append token_raw_prefix body), hex)

Keycard-well_shaped :
    (body : List ℕ)
    → length body ≡ token_body_len
    → all_hex body ≡ true
    → well_shaped (token_raw_prefix ++ body) ≡ true
unfolding well_shaped
Keycard-well_shaped body len hex = ground (
  arith,
  has_prefix-append token_raw_prefix body,
  drop-append token_raw_prefix body,
  length-append token_raw_prefix body,
)

-- Validate asks the store or bcrypt only about a token that consists of "engram_" and 32
-- hexadecimal digits and is not the master token.
pub calls-validate :
    (v : Validator) (raw : List ℕ) → (validate v raw).1 ≢ [] → Keycard raw × (raw ≢ v.master_token)
unfolding validate
calls-validate v raw h = elim (Bool-cases (is_blank raw)) [
  | inl e ↦ absurd (h (ground arith))
  | inr ne ↦ elim (Bool-cases (is_master v raw)) [
    | inl m ↦ absurd (h (ground arith))
    | inr nm ↦ elim (Bool-cases (well_shaped raw)) [
      | inl w ↦ (well_shaped-Keycard raw w, λ e. let m = eq-is_master v raw ne e in absurd cc)
      | inr nw ↦ absurd (h (ground arith))
    ]
  ]
]

abbrev pub Mismatched : Validator → List ℕ → ApiToken → Type 0
Mismatched v raw t = v.bcrypt t.token_hash raw ≡ mismatched

try_candidates-first :
    (v : Validator) (raw : List ℕ) (t : ApiToken) (earlier later : List ApiToken)
    → All (Mismatched v raw) earlier
    → v.bcrypt t.token_hash raw ≡ matching
    → try_candidates v.bcrypt raw (earlier ++ t ∷ later)
      ≡ (identity_of t, map (λ x. compare_hash x.token_hash) (earlier ++ t ∷ []))
unfolding try_candidates
try_candidates-first v raw t [] later miss hit = ground arith
try_candidates-first v raw t (x ∷ xs) later (m, miss) hit =
    ground (arith, try_candidates-first v raw t xs later miss hit)

-- A keycard that is not the master token is validated by the first row, among those that the
-- store finds by the first 8 digits, whose hash matches it, if every row before that is a
-- mismatch: the result is that of the row, its identity if its scope is "read-write" or
-- "read-only" and an error otherwise. The store is asked once, and no row after that one is
-- compared.
pub validate-first :
    (v : Validator) (body : List ℕ) (t : ApiToken) (earlier later : List ApiToken)
    (find_by : List ℕ → StoreOutcome)
    → length body ≡ token_body_len
    → all_hex body ≡ true
    → token_raw_prefix ++ body ≢ v.master_token
    → v.store ≡ some find_by
    → find_by (take token_prefix_len body) ≡ candidates (earlier ++ t ∷ later)
    → All (Mismatched v (token_raw_prefix ++ body)) earlier
    → v.bcrypt t.token_hash (token_raw_prefix ++ body) ≡ matching
    → validate v (token_raw_prefix ++ body) ≡ (
      identity_of t,
      find_by_prefix (take token_prefix_len body)
          ∷ map (λ x. compare_hash x.token_hash) (earlier ++ t ∷ []),
    )
unfolding validate validate_keycard lookup_prefix is_blank
validate-first v body t earlier later find_by len hex other has finds miss hit =
    let raw = token_raw_prefix ++ body in
    let shaped = Keycard-well_shaped body len hex in
    let nm : is_master v raw ≡ false = elim (Bool-cases (is_master v raw)) [
      | inl m ↦ absurd (other (is_master-eq v raw m))
      | inr n ↦ n
    ] in
    let tried = try_candidates-first v raw t earlier later miss hit in
    let looked : validate_keycard v raw ≡ (
      identity_of t,
      find_by_prefix (take token_prefix_len body)
          ∷ map (λ x. compare_hash x.token_hash) (earlier ++ t ∷ []),
    ) =
      ground arith in
    ground arith
