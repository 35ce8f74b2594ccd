-- ===== src/Auth/Cookies.antt =====
-- The methods of TokenAuth, in internal/worker/middleware.go, that authenticate a browser: the
-- two cookies and the header of the forward-auth proxy. The stores of users and sessions, base64,
-- HMAC and JSON are parameters.
use claude_mnemonic_plus.Prelude.{
  ℕ, ◌==◌, Bool, false, not, ◌&&◌, Option, none, some, List, [], ◌∷◌, ltb, if◌then◌else◌, bytes_eq,
  before,
}
use claude_mnemonic_plus.Auth.{Identity, session, same, is_blank}
use claude_mnemonic_plus.Auth.Requests.{HttpRequest, User, CookieCodec, TokenAuth, holds_text}

-- isTrustedProxy
unfoldable pub is_trusted_proxy : HttpRequest → List (List ℕ) → Bool
is_trusted_proxy r proxies = holds_text (before b':' r.remote_addr) proxies

-- strings.SplitN(value, ".", 2), `none` unless it has two parts.
unfoldable pub split_dot : List ℕ → Option (List ℕ × List ℕ)
split_dot [] = none
split_dot (x ∷ xs) =
    let rest = split_dot xs in
    if x == b'.' then some ([], xs) else elim rest [ none ↦ none | some (a, b) ↦ some (x ∷ a, b) ]

-- authenticateSessionCookie at the time `now`.
unfoldable pub authenticate_session_cookie : CookieCodec → ℕ → List ℕ → List ℕ → Bool
authenticate_session_cookie c now value key = elim (split_dot value) [
  | none ↦ false
  | some (p, s) ↦ elim (c.decode_string p) [
    | none ↦ false
    | some payload ↦ elim (c.decode_string s) [
      | none ↦ false
      | some sig ↦
          if bytes_eq sig (c.compute_hmac payload key)
          then elim (c.exp_of payload) [ none ↦ false | some exp ↦ not (ltb exp now) ]
          else false
    ]
  ]
]

-- Method 2: the session cookie.
unfoldable pub session_identity : CookieCodec → ℕ → TokenAuth → HttpRequest → Option Identity
session_identity c now ta r = elim (ta.cookie_key) [
  | none ↦ none
  | some key ↦ elim (r.session_cookie) [
    | none ↦ none
    | some value ↦
        if not (is_blank value) && authenticate_session_cookie c now value key
        then some (session "admin")
        else none
  ]
]

unfoldable pub user_identity : Option User → Option Identity
user_identity none = none
user_identity (some u) = if u.disabled then none else some (session u.role)

-- Method 3: the cookie of a session in the database.
unfoldable pub db_identity : TokenAuth → HttpRequest → Option Identity
db_identity ta r = elim (ta.auth_session_store) [
  | none ↦ none
  | some get_session ↦ elim (ta.user_store) [
    | none ↦ none
    | some users ↦ elim (r.auth_cookie) [
      | none ↦ none
      | some value ↦ if is_blank value then none else elim (get_session value) [
        | none ↦ none
        | some user_id ↦ user_identity (users.get_user_by_id user_id)
      ]
    ]
  ]
]

-- Method 4: Authentik's header.
unfoldable pub authentik_identity : TokenAuth → HttpRequest → Option Identity
authentik_identity ta r = elim (ta.user_store) [
  | none ↦ none
  | some users ↦
      if ta.authentik_enabled
        && not (same r.authentik_email "")
        && is_trusted_proxy r ta.authentik_trusted_proxies
      then elim (users.get_user_by_email r.authentik_email) [
        | some u ↦ user_identity (some u)
        | none ↦
            if ta.authentik_auto_provision
            then user_identity (users.create_user r.authentik_email "operator")
            else none
      ]
      else none
]

unfoldable pub or_else : Option Identity → Option Identity → Option Identity
or_else none i = i
or_else (some i) j = some i
