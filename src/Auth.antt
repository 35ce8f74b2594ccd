-- ===== src/Auth.antt =====
-- internal/auth: who a request's token stands for. Tokens are lists of bytes. The store of the
-- keycards and bcrypt are parameters: what FindByPrefix answers, and how a hash compares with a
-- token. A call of Validate also returns the calls that it made to them, in order.
pub mod Validate
pub mod Keycards
pub mod Requests
pub mod Cookies
pub mod Middleware
pub mod Gate
mod Tests
use claude_mnemonic_plus.Prelude.{
  ℕ, ◌+◌, ◌==◌, String, Bool, true, false, not, ◌&&◌, ◌||◌, Option, none, some, List, [], ◌∷◌, ite,
  leb, length, take, drop, dec_str, ◌⊎◌, inl, inr, if◌then◌else◌, codes, bytes_eq, has_prefix,
}

abbrev pub source_master : String
source_master = "master"

abbrev pub source_client : String
source_client = "client"

abbrev pub source_session : String
source_session = "session"

abbrev pub role_admin : String
role_admin = "admin"

abbrev pub role_read_write : String
role_read_write = "read-write"

abbrev pub role_read_only : String
role_read_only = "read-only"

-- Identity; `Role` and `Source` are texts.
pub record Identity : Type 0 where
  pub role : String
  pub source : String
  pub keycard_id : String

-- Admin
abbrev pub admin : Identity
admin = record { role = role_admin; source = source_master; keycard_id = "" }

-- Client
abbrev pub client : String → String → Identity
client scope keycard = record { role = scope; source = source_client; keycard_id = keycard }

-- Session
abbrev pub session : String → Identity
session role = record { role = role; source = source_session; keycard_id = "" }

abbrev pub same : String → String → Bool
same a b = ite (dec_str a b) true false

-- IsAdmin
unfoldable pub is_admin : Identity → Bool
is_admin i = same i.role role_admin

-- IsSessionAdmin
unfoldable pub is_session_admin : Identity → Bool
is_session_admin i = same i.role role_admin && same i.source source_session

abbrev pub token_raw_prefix : List ℕ
token_raw_prefix = codes "engram_"

abbrev pub token_prefix_len : ℕ
token_prefix_len = 8

abbrev pub token_body_len : ℕ
token_body_len = 32

abbrev pub token_total_len : ℕ
token_total_len = 39

-- isHex
unfoldable pub is_hex : ℕ → Bool
is_hex b = (leb b'0' b && leb b b'9') || (leb b'a' b && leb b b'f') || (leb b'A' b && leb b b'F')

-- The loop over the body.
unfoldable pub all_hex : List ℕ → Bool
all_hex [] = true
all_hex (b ∷ bs) = if is_hex b then all_hex bs else false

-- The fields of a row of api_tokens that the validator reads.
pub record ApiToken : Type 0 where
  pub id : String
  pub token_hash : String
  pub scope : String

-- What bcrypt.CompareHashAndPassword returns: nil, ErrMismatchedHashAndPassword, another error.
pub data BcryptOutcome : Type 0 where
  matching : BcryptOutcome
  mismatched : BcryptOutcome
  bcrypt_failed : String → BcryptOutcome

-- What FindByPrefix returns.
pub data StoreOutcome : Type 0 where
  candidates : List ApiToken → StoreOutcome
  store_failed : String → StoreOutcome

pub data AuthError : Type 0 where
  empty_token : AuthError
  invalid_credentials : AuthError
  revoked : AuthError
  store_lookup : String → AuthError
  unexpected_scope : String → String → AuthError
  bcrypt_error : String → AuthError

-- A call to the store or to bcrypt.
pub data AuthCall : Type 0 where
  find_by_prefix : List ℕ → AuthCall
  compare_hash : String → AuthCall

-- Validator, with bcrypt; `store` is `none` where the source has nil.
pub record Validator : Type 0 where
  pub master_token : List ℕ
  pub store : Option (List ℕ → StoreOutcome)
  pub bcrypt : String → List ℕ → BcryptOutcome

-- The switch on a matching row's scope.
unfoldable pub identity_of : ApiToken → AuthError ⊎ Identity
identity_of t =
    if same t.scope role_read_write || same t.scope role_read_only
    then inr (client t.scope t.id)
    else inl (unexpected_scope t.id t.scope)

-- The loop over the candidates.
unfoldable pub try_candidates :
    (String → List ℕ → BcryptOutcome)
    → List ℕ
    → List ApiToken
    → (AuthError ⊎ Identity) × List AuthCall
try_candidates bcrypt raw [] = (inl invalid_credentials, [])
try_candidates bcrypt raw (t ∷ ts) =
    let (r, calls) = try_candidates bcrypt raw ts in
    elim (bcrypt (t.token_hash) raw) [
      | matching ↦ (identity_of t, compare_hash t.token_hash ∷ [])
      | mismatched ↦ (r, compare_hash t.token_hash ∷ calls)
      | bcrypt_failed e ↦ (inl (bcrypt_error e), compare_hash t.token_hash ∷ [])
    ]

-- The shape gate, which a token passes before the store is asked.
unfoldable pub well_shaped : List ℕ → Bool
well_shaped raw =
    has_prefix token_raw_prefix raw
    && (length raw == token_total_len)
    && all_hex (drop (length token_raw_prefix) raw)

-- `body[:TokenPrefixLen]`
unfoldable pub lookup_prefix : List ℕ → List ℕ
lookup_prefix raw = take token_prefix_len (drop (length token_raw_prefix) raw)

-- Tier 2, for a token of the right shape.
unfoldable pub validate_keycard : Validator → List ℕ → (AuthError ⊎ Identity) × List AuthCall
validate_keycard v raw = elim (v.store) [
  | none ↦ (inl invalid_credentials, [])
  | some find_by ↦ elim (find_by (lookup_prefix raw)) [
    | store_failed e ↦ (inl (store_lookup e), find_by_prefix (lookup_prefix raw) ∷ [])
    | candidates ts ↦
        let (r, calls) = try_candidates v.bcrypt raw ts in
        (r, find_by_prefix (lookup_prefix raw) ∷ calls)
  ]
]

unfoldable pub is_blank : List ℕ → Bool
is_blank [] = true
is_blank (b ∷ bs) = false

-- `v.masterToken != ""` and the comparison with it.
unfoldable pub is_master : Validator → List ℕ → Bool
is_master v raw = not (is_blank v.master_token) && bytes_eq raw v.master_token

-- Validate
unfoldable pub validate : Validator → List ℕ → (AuthError ⊎ Identity) × List AuthCall
validate v raw =
    let tier2 = validate_keycard v raw in
    if is_blank raw
    then (inl empty_token, [])
    else if is_master v raw
    then (inr admin, [])
    else if well_shaped raw
    then tier2
    else (inl invalid_credentials, [])
