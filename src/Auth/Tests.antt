-- ===== src/Auth/Tests.antt =====
-- Tokens, requests and the theorems at them.
use claude_mnemonic_plus.Prelude.{
  All, ℕ, ◌≡◌, ◌≢◌, ◌↔◌, ◌⊎◌, refl, String, true, false, none, some, List, [], ◌∷◌, ◌++◌, map, take,
  inl, inr, dec_str, Bool-cases, codes, bytes_eq, has_prefix, cut_prefix, before,
}
use claude_mnemonic_plus.Auth.{
  admin, client, is_admin, is_session_admin, is_hex, all_hex, token_raw_prefix, token_prefix_len,
  ApiToken, BcryptOutcome, matching, mismatched, candidates, invalid_credentials, unexpected_scope,
  find_by_prefix, compare_hash, Validator, identity_of, try_candidates, well_shaped, lookup_prefix,
  validate_keycard, is_blank, is_master, validate, session,
}
use claude_mnemonic_plus.Auth.Validate.{is_admin-validate}
use claude_mnemonic_plus.Auth.Keycards.{validate-first}
use claude_mnemonic_plus.Auth.Requests.{
  HttpRequest, CookieCodec, TokenAuth, new_token_auth, set_validator, holds_text,
  set_authentik_config, set_auth_stores,
}
use claude_mnemonic_plus.Auth.Cookies.{
  is_trusted_proxy, split_dot, authenticate_session_cookie, session_identity, user_identity,
  db_identity, authentik_identity, or_else,
}
use claude_mnemonic_plus.Auth.Middleware.{
  passed, unauthorized, forbidden, read_only_allowed_posts, is_mutating_method, query_bearer,
  extract_http_bearer, is_open, reject, count_use, is_read_only_violation, bearer_gate, cookie_gate,
  middleware,
}
use claude_mnemonic_plus.Auth.Gate.{is_session_admin-middleware, read_only-middleware}

program : Unit {0}
unfolding dec_str Bool-cases bytes_eq has_prefix cut_prefix before is_admin is_session_admin is_hex
    all_hex identity_of try_candidates well_shaped lookup_prefix validate_keycard is_blank is_master
    validate new_token_auth set_validator set_authentik_config set_auth_stores holds_text
    is_trusted_proxy split_dot authenticate_session_cookie session_identity user_identity
    db_identity authentik_identity or_else is_mutating_method query_bearer extract_http_bearer
    is_open reject count_use is_read_only_violation bearer_gate cookie_gate middleware
program = tt

abbrev master : List ℕ
master = codes "operator"

abbrev body : List ℕ
body = codes "0123456789abcdef0123456789ABCDEF"

abbrev keycard : List ℕ
keycard = token_raw_prefix ++ body

abbrev row : String → String → ApiToken
row hash scope = record { id = "id-"; token_hash = hash; scope = scope }

-- Only the hash "h2" matches.
abbrev bcrypt : String → List ℕ → BcryptOutcome
bcrypt hash raw = elim (dec_str hash "h2") [ yes e ↦ matching | no ne ↦ mismatched ]

abbrev rows : List ApiToken
rows = row "h1" "read-write" ∷ row "h2" "read-only" ∷ row "h3" "admin" ∷ []

abbrev validator : Validator
validator = record { master_token = master; store = some (λ p. candidates rows); bcrypt = bcrypt }

second_row : validate validator keycard ≡ (
  inr (client "read-only" "id-"),
  find_by_prefix (codes "01234567") ∷ compare_hash "h1" ∷ compare_hash "h2" ∷ [],
)
unfolding program
second_row = refl

too_short : validate validator (codes "engram_01") ≡ (inl invalid_credentials, [])
unfolding program
too_short = refl

corrupt_scope : identity_of (row "h2" "admin") ≡ inl (unexpected_scope "id-" "admin")
unfolding program
corrupt_scope = refl

is_admin-validate_example : is_admin admin ≡ true ↔ master ≡ master
unfolding program
is_admin-validate_example = is_admin-validate validator master admin refl

keycard_other : keycard ≢ master
unfolding program
keycard_other = (λ h. absurd cc)

validate-first_example : validate validator keycard ≡ (
  identity_of (row "h2" "read-only"),
  find_by_prefix (take token_prefix_len body)
      ∷ map (λ x. compare_hash x.token_hash) (row "h1" "read-write" ∷ row "h2" "read-only" ∷ []),
)
unfolding program
validate-first_example =
    validate-first validator body (row "h2" "read-only") (row "h1" "read-write" ∷ [])
      (row "h3" "admin" ∷ []) (λ p. candidates rows) refl refl keycard_other refl refl (refl, tt)
      refl

abbrev gate : TokenAuth
gate = record {
  exempt_paths = codes "/health" ∷ [];
  cookie_key = some (codes "key");
  validator = some validator;
  auth_session_store = none;
  user_store = none;
  waiting = [];
  enabled = true;
  authentik_enabled = false;
  authentik_auto_provision = false;
  authentik_trusted_proxies = [];
}

abbrev codec : CookieCodec
codec = record { decode_string = λ s. some s; compute_hmac = λ p key. key; exp_of = λ p. some 100 }

abbrev request : String → String → List ℕ → HttpRequest
request path method token = record {
  path = codes path;
  http_method = method;
  x_auth_token = [];
  authorization = codes "Bearer " ++ token;
  query_token = [];
  session_cookie = some (codes "payload.key");
  auth_cookie = none;
  authentik_email = "";
  remote_addr = codes "10.0.0.1:5000";
}

wrong_token :
    (middleware codec 50 gate (request "/api/memory" "GET" (codes "guess"))).0 ≡ unauthorized
unfolding program
wrong_token = refl

cookie_alone :
    (middleware codec 50 gate (record (request "/api/memory" "POST" []) { authorization = [] })).0
    ≡ passed (some (session "admin"))
unfolding program
cookie_alone = refl

expired_cookie :
    (middleware codec 101 gate (record (request "/api/memory" "POST" []) { authorization = [] })).0
    ≡ unauthorized
unfolding program
expired_cookie = refl

read_only_post : (middleware codec 50 gate (request "/api/memory" "POST" keycard)).0 ≡ forbidden
unfolding program
read_only_post = refl

is_session_admin-middleware_example : is_session_admin (client "read-only" "id-") ≡ false
unfolding program
is_session_admin-middleware_example =
    is_session_admin-middleware codec 50 gate (request "/api/memory" "GET" keycard)
      (client "read-only" "id-") refl (λ h. absurd cc) refl

read_only-middleware_example :
    All
      (λ m. (request "/api/context/search" "POST" keycard).http_method ≢ m)
      ("POST" ∷ "PUT" ∷ "DELETE" ∷ "PATCH" ∷ [])
    ⊎ (holds_text (codes "/api/context/search") read_only_allowed_posts ≡ true)
unfolding program
read_only-middleware_example =
    read_only-middleware codec 50 gate (request "/api/context/search" "POST" keycard)
      (client "read-only" "id-") refl (λ h. absurd cc) refl refl refl
