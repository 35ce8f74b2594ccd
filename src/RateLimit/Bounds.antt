-- ===== src/RateLimit/Bounds.antt =====
-- How many requests the bucket of internal/worker/ratelimit.go allows.
use claude_mnemonic_plus.Prelude.{
  ℕ, zero, suc, ◌+◌, ◌-◌, ◌*◌, ◌≤◌, ◌≡◌, refl, Bool, true, List, [], ◌∷◌, arith, All, leb,
  if◌then◌else◌, subst, sym, ◌∙◌, length, replicate,
}
use claude_mnemonic_plus.RateLimit.{RateLimiter, token, available, allow}

-- Requests that come one after the other, each so long after the one before.
unfoldable pub allow_after : List ℕ → ℕ → RateLimiter → RateLimiter × List Bool
allow_after [] now l = (l, [])
allow_after (w ∷ ws) now l =
    let first = allow (now + w) l in
    let rest = allow_after ws (now + w) first.0 in (rest.0, first.1 ∷ rest.1)

unfoldable pub count_true : List Bool → ℕ
count_true [] = 0
count_true (b ∷ bs) = let rest = count_true bs in if b then suc rest else rest

unfoldable pub sum : List ℕ → ℕ
sum [] = 0
sum (w ∷ ws) = w + sum ws

mul_add : (a b r : ℕ) → (a + b) * r ≡ a * r + b * r
mul_add a b r = ground arith

pub available-burst : (now : ℕ) (l : RateLimiter) → available now l ≤ l.burst * token
unfolding available
available-burst now l = ground arith

sub_add : (now w u : ℕ) → (now + w) - u ≤ (now - u) + w
sub_add now w u = omega arith

pub mul_le : (a b r : ℕ) → a ≤ b → a * r ≤ b * r
mul_le a b zero h = omega arith
mul_le a b (suc r) h = omega (arith, mul_le a b r h)

refill_le : (now w : ℕ) (l : RateLimiter) → available (now + w) l ≤ available now l + w * l.rate
unfolding available
refill_le now w l =
    let m =
      mul_le ((now + w) - l.last_update) ((now - l.last_update) + w) l.rate
        (sub_add now w l.last_update) in
    let d = mul_add (now - l.last_update) w l.rate in ground arith

allow-allowed : (now : ℕ) (l : RateLimiter) → (allow now l).1 ≡ leb token (available now l)
unfolding allow
allow-allowed now l = ground arith

pub allow-rate : (now : ℕ) (l : RateLimiter) → (allow now l).0.rate ≡ l.rate
unfolding allow
allow-rate now l = ground arith

pub allow-burst : (now : ℕ) (l : RateLimiter) → (allow now l).0.burst ≡ l.burst
unfolding allow
allow-burst now l = ground arith

-- What a call takes.
allow-available :
    (now : ℕ) (l : RateLimiter)
    → (if (allow now l).1 then token else 0) + available now (allow now l).0 ≡ available now l
unfolding allow available
allow-available now l = ground arith

allow_after-available :
    (ws : List ℕ) (now : ℕ) (l : RateLimiter)
    → count_true (allow_after ws now l).1 * token ≤ available now l + sum ws * l.rate
unfolding allow_after count_true sum
allow_after-available [] now l = omega arith
allow_after-available (w ∷ ws) now l =
    let first = (allow (now + w) l).0 in
    let refilled = refill_le now w l in
    let taken = allow-available (now + w) l in
    let later = allow_after-available ws (now + w) first in
    let e = allow-rate (now + w) l in let d = mul_add w (sum ws) l.rate in ground arith

-- However the requests come, from any state of the bucket on, the requests that RateLimiter
-- allows are at most the burst and what the rate gives in the time up to the last of them.
pub allow_after-bounded :
    (ws : List ℕ) (now : ℕ) (l : RateLimiter)
    → count_true (allow_after ws now l).1 * token ≤ l.burst * token + sum ws * l.rate
allow_after-bounded ws now l = omega (arith, allow_after-available ws now l, available-burst now l)

refilled_enough :
    (now w : ℕ) (l : RateLimiter)
    → l.last_update ≤ now
    → 1 ≤ l.burst
    → token ≤ w * l.rate
    → leb token (available (now + w) l) ≡ true
unfolding available
refilled_enough now w l past b enough =
    let m = mul_le w ((now + w) - l.last_update) l.rate (omega arith) in ground arith

allow-last_update : (now : ℕ) (l : RateLimiter) → (allow now l).0.last_update ≡ now
unfolding allow
allow-last_update now l = ground arith

-- A client that waits before each request at least as long as one token takes is never rejected,
-- if the burst is at least one and the bucket was not changed later than the time the waits start
-- at.
pub allow_after-slow :
    (ws : List ℕ) (now : ℕ) (l : RateLimiter)
    → l.last_update ≤ now
    → 1 ≤ l.burst
    → All (λ w. token ≤ w * l.rate) ws
    → (allow_after ws now l).1 ≡ replicate (length ws) true
unfolding allow_after
allow_after-slow [] now l past b slow = refl
allow_after-slow (w ∷ ws) now l past b slow =
    let first = (allow (now + w) l).0 in
    let e = allow-rate (now + w) l in
    let still = subst (λ r. All (λ v. token ≤ v * r) ws) (sym e) slow.1 in
    let s = allow-last_update (now + w) l in
    let later =
      allow_after-slow ws (now + w) first (omega arith)
        (subst (λ n. 1 ≤ n) (sym (allow-burst (now + w) l)) b) still in
    let allowed = allow-allowed (now + w) l ∙ refilled_enough now w l past b slow.0 in
    rw (allowed, later) refl

-- Each request is counted, and it is counted as rejected where the answer is so.
pub allow_after-counters :
    (ws : List ℕ) (now : ℕ) (l : RateLimiter)
    → ((allow_after ws now l).0.requests ≡ l.requests + length ws)
      × ((allow_after ws now l).0.rejected + count_true (allow_after ws now l).1
          ≡ l.rejected + length ws)
unfolding allow_after count_true allow
allow_after-counters [] now l = (omega arith, omega arith)
allow_after-counters (w ∷ ws) now l =
    let later = allow_after-counters ws (now + w) (allow (now + w) l).0 in
    (ground (arith, later.0), ground (arith, later.1))
