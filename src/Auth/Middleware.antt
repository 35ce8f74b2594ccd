-- ===== src/Auth/Middleware.antt =====
-- Middleware of internal/worker/middleware.go: the gate in front of the worker's HTTP handlers.
use claude_mnemonic_plus.Prelude.{
  ℕ, String, Bool, not, ◌&&◌, ◌||◌, Option, none, some, List, [], ◌∷◌, ◌++◌, ltb, length, inl, inr,
  if◌then◌else◌, codes, bytes_eq, has_prefix, cut_prefix,
}
use claude_mnemonic_plus.Auth.{
  Identity, same, source_client, role_read_only, AuthError, empty_token, invalid_credentials,
  revoked, store_lookup, unexpected_scope, bcrypt_error, is_blank, validate,
}
use claude_mnemonic_plus.Auth.Requests.{HttpRequest, CookieCodec, TokenAuth, holds_text}
use claude_mnemonic_plus.Auth.Cookies.{session_identity, db_identity, authentik_identity, or_else}

-- What the gate does: call the next handler, with an identity or without, or answer.
pub data HttpOutcome : Type 0 where
  passed : Option Identity → HttpOutcome
  unauthorized : HttpOutcome
  auth_unavailable : HttpOutcome
  forbidden : HttpOutcome

-- readOnlyAllowedPosts
abbrev pub read_only_allowed_posts : List (List ℕ)
read_only_allowed_posts =
    codes "/api/context/search"
    ∷ codes "/api/context/inject"
    ∷ codes "/api/decisions/search"
    ∷ codes "/api/analytics/search-misses"
    ∷ []

-- isMutatingMethod
unfoldable pub is_mutating_method : String → Bool
is_mutating_method m = same "POST" m || same "PUT" m || same "DELETE" m || same "PATCH" m

-- extractHTTPBearer
unfoldable pub query_bearer : HttpRequest → List ℕ
query_bearer r =
    if bytes_eq r.path (codes "/api/events")
      || bytes_eq r.path (codes "/sse")
      || has_prefix (codes "/api/logs") r.path
    then r.query_token
    else []

unfoldable pub extract_http_bearer : HttpRequest → List ℕ
extract_http_bearer r =
    if is_blank r.x_auth_token
    then if is_blank r.authorization
      then query_bearer r
      else elim (cut_prefix (codes "Bearer ") r.authorization) [
        | none ↦ query_bearer r
        | some bearer ↦ bearer
      ]
    else r.x_auth_token

-- The paths that need no authentication.
unfoldable pub is_open : TokenAuth → HttpRequest → Bool
is_open ta r =
    not ta.enabled
    || holds_text r.path ta.exempt_paths
    || has_prefix (codes "/assets/") r.path
    || has_prefix (codes "/branding/") r.path
    || bytes_eq r.path (codes "/favicon.svg")
    || has_prefix (codes "/api/docs") r.path

-- The answer to an error of Validate.
unfoldable pub reject : AuthError → HttpOutcome
reject empty_token = unauthorized
reject invalid_credentials = unauthorized
reject revoked = unauthorized
reject (store_lookup e) = auth_unavailable
reject (unexpected_scope i s) = auth_unavailable
reject (bcrypt_error e) = auth_unavailable

abbrev pub stats_capacity : ℕ
stats_capacity = 256

-- The non-blocking send of the keycard's identifier.
unfoldable pub count_use : Identity → List String → List String
count_use id waiting =
    if same id.source source_client && not (same id.keycard_id "")
    then if ltb (length waiting) stats_capacity then waiting ++ id.keycard_id ∷ [] else waiting
    else waiting

-- Whether the scope of a read-only keycard forbids the request.
unfoldable pub is_read_only_violation : HttpRequest → Identity → Bool
is_read_only_violation r id =
    (same id.source source_client && same id.role role_read_only)
    && (is_mutating_method r.http_method && not (holds_text r.path read_only_allowed_posts))

-- Method 1: a request with a token.
unfoldable pub bearer_gate : TokenAuth → HttpRequest → HttpOutcome × TokenAuth
bearer_gate ta r = elim (ta.validator) [
  | none ↦ (unauthorized, ta)
  | some v ↦ elim ((validate v (extract_http_bearer r)).0) [
    | inl e ↦ (reject e, ta)
    | inr id ↦
        if is_read_only_violation r id
        then (forbidden, ta)
        else (passed (some id), record ta { waiting = count_use id ta.waiting })
  ]
]

abbrev pub answer : Option Identity → HttpOutcome
answer none = unauthorized
answer (some i) = passed (some i)

-- The methods without a token, in their order.
unfoldable pub cookie_gate : CookieCodec → ℕ → TokenAuth → HttpRequest → HttpOutcome
cookie_gate c now ta r =
    answer
      (or_else (session_identity c now ta r) (or_else (db_identity ta r) (authentik_identity ta r)))

-- Middleware
unfoldable pub middleware : CookieCodec → ℕ → TokenAuth → HttpRequest → HttpOutcome × TokenAuth
middleware c now ta r =
    if is_open ta r
    then (passed none, ta)
    else if is_blank (extract_http_bearer r)
    then (cookie_gate c now ta r, ta)
    else bearer_gate ta r
