-- ===== src/RateLimit/Tests.antt =====
-- Buckets at work, and the theorems at them.
use claude_mnemonic_plus.Prelude.{
  ℕ, ◌≡◌, refl, true, false, none, some, List, [], ◌∷◌, arith, String, length, ◌+◌, ◌*◌, ◌≤◌,
  lookup, insert, dec_str,
}
use claude_mnemonic_plus.RateLimit.{
  RateLimiter, token, new_rate_limiter, available, allow, busy_clients, cleanup_locked, cleanup_due,
  get_limiter, allow_client, new_per_client_rate_limiter, total_requests, client_stats, client_key,
  rate_limit_middleware, shared_rate_limit_middleware,
}
use claude_mnemonic_plus.RateLimit.Bounds.{allow_after, count_true, sum, allow_after-bounded}
use claude_mnemonic_plus.RateLimit.Clients.{ask_all, ask_each, update, limiter_of}
use claude_mnemonic_plus.RateLimit.Refinement.{ask_all-refines}

program : Unit {0}
unfolding new_rate_limiter available allow busy_clients cleanup_locked cleanup_due get_limiter
    allow_client new_per_client_rate_limiter total_requests client_stats client_key
    rate_limit_middleware shared_rate_limit_middleware allow_after count_true sum ask_all ask_each
    update limiter_of lookup insert dec_str
program = tt

-- Two tokens, and one more in half a second.
abbrev two : RateLimiter
two = record {
  last_update = 0;
  rate = 2;
  burst = 2;
  tokens = 2000000000;
  requests = 0;
  rejected = 0;
}

third_rejected :
    (allow_after (0 ∷ 0 ∷ 0 ∷ 500000000 ∷ []) 0 two).1 ≡ true ∷ true ∷ false ∷ true ∷ []
unfolding program
third_rejected = refl

allow_after-bounded_example :
    count_true (allow_after (0 ∷ 0 ∷ 0 ∷ 500000000 ∷ []) 0 two).1 * token ≤ 2 * token + 1000000000
unfolding program
allow_after-bounded_example = allow_after-bounded (0 ∷ 0 ∷ 0 ∷ 500000000 ∷ []) 0 two

abbrev asked : List (ℕ × String)
asked = (0, "a") ∷ (0, "a") ∷ (1, "b") ∷ (700000000000, "b") ∷ (0, "a") ∷ []

cleaned_once : length (ask_all asked 0 (new_per_client_rate_limiter 1 1 0)).0.clients ≡ 2
unfolding program
cleaned_once = refl

ask_all-refines_example :
    (ask_all asked 0 (new_per_client_rate_limiter 1 1 0)).1 ≡ true ∷ false ∷ true ∷ true ∷ true ∷ []
unfolding program
ask_all-refines_example = ask_all-refines asked 1 1 0 (omega arith)

stats_counted :
    client_stats (ask_all ((0, "a") ∷ (0, "a") ∷ []) 0 (new_per_client_rate_limiter 1 1 0)).0
    ≡ (1, (2, 1))
unfolding program
stats_counted = refl

limited :
    (rate_limit_middleware {R = ℕ} 200 "" "10.0.0.1:80" 0 (new_per_client_rate_limiter 1 0 0)).1
    ≡ none
unfolding program
limited = refl

shared : (shared_rate_limit_middleware {R = ℕ} 200 0 two).1 ≡ some 200
unfolding program
shared = refl
