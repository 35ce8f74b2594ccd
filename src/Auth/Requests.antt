-- ===== src/Auth/Requests.antt =====
-- The requests, the stores and the state of TokenAuth of internal/worker/middleware.go, with its setters.
use claude_mnemonic_plus.Prelude.{
  ℕ, String, Bool, false, not, ◌&&◌, ◌||◌, Option, none, some, List, [], ◌∷◌, if◌then◌else◌, codes,
  bytes_eq,
}
use claude_mnemonic_plus.Auth.{Validator, is_blank}

-- The part of http.Request that the gate reads; a cookie is `none` where r.Cookie fails.
pub record HttpRequest : Type 0 where
  pub path : List ℕ
  pub http_method : String
  pub x_auth_token : List ℕ
  pub authorization : List ℕ
  pub query_token : List ℕ
  pub session_cookie : Option (List ℕ)
  pub auth_cookie : Option (List ℕ)
  pub authentik_email : String
  pub remote_addr : List ℕ

-- The fields of a user that the gate reads.
pub record User : Type 0 where
  pub role : String
  pub disabled : Bool

-- The user store, `none` for an error.
pub record UserStore : Type 0 where
  pub get_user_by_id : String → Option User
  pub get_user_by_email : String → Option User
  pub create_user : String → String → Option User

-- What authenticateSessionCookie uses: base64, the HMAC of a payload under a key, and the expiry
-- that the payload's JSON has.
pub record CookieCodec : Type 0 where
  pub decode_string : List ℕ → Option (List ℕ)
  pub compute_hmac : List ℕ → List ℕ → List ℕ
  pub exp_of : List ℕ → Option ℕ

-- TokenAuth; `waiting` is what the channel statsCh holds.
pub record TokenAuth : Type 0 where
  pub exempt_paths : List (List ℕ)
  pub cookie_key : Option (List ℕ)
  pub validator : Option Validator
  pub auth_session_store : Option (List ℕ → Option String)
  pub user_store : Option UserStore
  pub waiting : List String
  pub enabled : Bool
  pub authentik_enabled : Bool
  pub authentik_auto_provision : Bool
  pub authentik_trusted_proxies : List (List ℕ)

unfoldable pub holds_text : List ℕ → List (List ℕ) → Bool
holds_text t [] = false
holds_text t (x ∷ xs) = bytes_eq x t || holds_text t xs

-- ExemptPaths as NewTokenAuth fills it.
abbrev pub default_exempt_paths : List (List ℕ)
default_exempt_paths =
    codes "/"
    ∷ codes "/health"
    ∷ codes "/api/health"
    ∷ codes "/api/ready"
    ∷ codes "/api/version"
    ∷ codes "/api/auth/login"
    ∷ codes "/api/auth/logout"
    ∷ codes "/api/auth/me"
    ∷ codes "/api/auth/setup-needed"
    ∷ codes "/api/auth/setup"
    ∷ codes "/api/auth/user-login"
    ∷ codes "/api/auth/register"
    ∷ []

-- NewTokenAuth, with the hash of the token, what the environment says of ENGRAM_AUTH_DISABLED, and
-- the validator that answers before the store is there.
unfoldable pub new_token_auth : (List ℕ → List ℕ) → List ℕ → Bool → Validator → TokenAuth
new_token_auth sha256 token disabled bootstrap = record {
  exempt_paths = default_exempt_paths;
  cookie_key = if is_blank token then none else some (sha256 token);
  validator = some bootstrap;
  auth_session_store = none;
  user_store = none;
  waiting = [];
  enabled = not (is_blank token) && not disabled;
  authentik_enabled = false;
  authentik_auto_provision = false;
  authentik_trusted_proxies = [];
}

-- SetValidator
unfoldable pub set_validator : Option Validator → TokenAuth → TokenAuth
set_validator v ta = record ta { validator = v }

-- SetAuthStores
unfoldable pub set_auth_stores :
    Option UserStore → Option (List ℕ → Option String) → TokenAuth → TokenAuth
set_auth_stores users sessions ta = record ta { user_store = users; auth_session_store = sessions }

-- SetAuthentikConfig
unfoldable pub set_authentik_config : Bool → Bool → List (List ℕ) → TokenAuth → TokenAuth
set_authentik_config enabled provision proxies ta = record ta {
  authentik_enabled = enabled;
  authentik_auto_provision = provision;
  authentik_trusted_proxies = proxies;
}
