-- ===== src/RateLimit.antt =====
-- internal/worker/ratelimit.go: the token bucket of a client and the map of the clients' buckets.
-- A time is a number of nanoseconds, a rate is a number of tokens in a second, and tokens are
-- counted in billionths, so that what the source computes in float64 is exact here. Every
-- operation takes the time that it reads; a call of the per-client limiter reads it once here.
pub mod Bounds
pub mod Clients
pub mod Cleanup
pub mod Refinement
mod Tests
use claude_mnemonic_plus.Prelude.{
  ℕ, suc, ◌+◌, ◌-◌, ◌*◌, String, Bool, true, false, List, [], ◌∷◌, Option, none, some, length, ltb,
  leb, if◌then◌else◌, lookup, insert, dec_str, ite,
}

-- One token, in billionths.
abbrev pub token : ℕ
token = 1000000000

-- RateLimiter
pub record RateLimiter : Type 0 where
  pub last_update : ℕ
  pub rate : ℕ
  pub burst : ℕ
  pub tokens : ℕ
  pub requests : ℕ
  pub rejected : ℕ

-- NewRateLimiter
unfoldable pub new_rate_limiter : ℕ → ℕ → ℕ → RateLimiter
new_rate_limiter rate burst now = record {
  last_update = now;
  rate = rate;
  burst = burst;
  tokens = burst * token;
  requests = 0;
  rejected = 0;
}

-- The tokens that Allow finds: those left and those added since, the burst at most.
unfoldable pub available : ℕ → RateLimiter → ℕ
available now l =
    let filled = l.tokens + (now - l.last_update) * l.rate in
    if ltb (l.burst * token) filled then l.burst * token else filled

-- RateLimiter.Allow
unfoldable pub allow : ℕ → RateLimiter → RateLimiter × Bool
allow now l =
    let tokens = available now l in
    if leb token tokens
    then (record l { last_update = now; tokens = tokens - token; requests = suc l.requests }, true)
    else (
      record l {
        last_update = now;
        tokens = tokens;
        requests = suc l.requests;
        rejected = suc l.rejected;
      },
      false,
    )

-- PerClientRateLimiter
pub record PerClientRateLimiter : Type 0 where
  pub last_cleanup : ℕ
  pub clients : List (String × RateLimiter)
  pub client_rate : ℕ
  pub client_burst : ℕ
  pub cleanup_interval : ℕ
  pub max_idle_time : ℕ

-- NewPerClientRateLimiter: 5 minutes and 10 minutes.
unfoldable pub new_per_client_rate_limiter : ℕ → ℕ → ℕ → PerClientRateLimiter
new_per_client_rate_limiter rate burst now = record {
  last_cleanup = now;
  clients = [];
  client_rate = rate;
  client_burst = burst;
  cleanup_interval = 300 * 1000000000;
  max_idle_time = 600 * 1000000000;
}

-- The entries that cleanupLocked keeps.
unfoldable pub busy_clients : ℕ → ℕ → List (String × RateLimiter) → List (String × RateLimiter)
busy_clients now idle [] = []
busy_clients now idle ((k, l) ∷ m) =
    let rest = busy_clients now idle m in
    if ltb idle (now - l.last_update) then rest else (k, l) ∷ rest

-- cleanupLocked
unfoldable pub cleanup_locked : ℕ → PerClientRateLimiter → PerClientRateLimiter
cleanup_locked now p = record p {
  clients = busy_clients now p.max_idle_time p.clients;
  last_cleanup = now;
}

-- The cleanup that getLimiter begins with.
unfoldable pub cleanup_due : ℕ → PerClientRateLimiter → PerClientRateLimiter
cleanup_due now p =
    if ltb p.cleanup_interval (now - p.last_cleanup) then cleanup_locked now p else p

-- getLimiter
unfoldable pub get_limiter : String → ℕ → PerClientRateLimiter → PerClientRateLimiter × RateLimiter
get_limiter key now p =
    let cleaned = cleanup_due now p in
    elim (lookup dec_str key cleaned.clients) [
      | some l ↦ (cleaned, l)
      | none ↦
          let l = new_rate_limiter p.client_rate p.client_burst now in
          (record cleaned { clients = insert dec_str key l cleaned.clients }, l)
    ]

-- PerClientRateLimiter.Allow: the limiter is changed where the map holds it.
unfoldable pub allow_client : String → ℕ → PerClientRateLimiter → PerClientRateLimiter × Bool
allow_client key now p =
    let got = get_limiter key now p in
    let answer = allow now got.1 in
    (record (got.0) { clients = insert dec_str key answer.0 got.0.clients }, answer.1)

-- The counters that PerClientRateLimiter.Stats adds up: requests, and those rejected.
unfoldable pub total_requests : List (String × RateLimiter) → ℕ × ℕ
total_requests [] = (0, 0)
total_requests ((k, l) ∷ m) =
    let rest = total_requests m in (l.requests + rest.0, l.rejected + rest.1)

-- PerClientRateLimiter.Stats: the active clients, the requests, and those rejected.
unfoldable pub client_stats : PerClientRateLimiter → ℕ × (ℕ × ℕ)
client_stats p = (length p.clients, total_requests p.clients)

-- The client's name in PerClientRateLimitMiddleware: X-Real-IP, or else the address.
unfoldable pub client_key : String → String → String
client_key real_ip remote_addr = ite (dec_str real_ip "") remote_addr real_ip

-- PerClientRateLimitMiddleware: `none` for the answer 429, or else the answer of the next handler.
unfoldable pub rate_limit_middleware :
    {R : Type 0} → R → String → String → ℕ → PerClientRateLimiter → PerClientRateLimiter × Option R
rate_limit_middleware next real_ip remote_addr now p =
    let answer = allow_client (client_key real_ip remote_addr) now p in
    (answer.0, if answer.1 then some next else none)

-- RateLimitMiddleware: the same with one limiter for all requests.
unfoldable pub shared_rate_limit_middleware :
    {R : Type 0} → R → ℕ → RateLimiter → RateLimiter × Option R
shared_rate_limit_middleware next now limiter =
    let answer = allow now limiter in (answer.0, if answer.1 then some next else none)
