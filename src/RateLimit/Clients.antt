-- ===== src/RateLimit/Clients.antt =====
-- The per-client limiter of internal/worker/ratelimit.go against one limiter for every client that
-- is there from the beginning and never removed.
use claude_mnemonic_plus.Prelude.{
  ℕ, ◌+◌, ◌-◌, ◌*◌, ◌≤◌, ◌≡◌, refl, Bool, List, [], ◌∷◌, arith, inl, inr, Bool-cases, ltb,
  if◌then◌else◌, subst, sym, String, none, some, lookup, dec_str, ite, UniqueKeys,
}
use claude_mnemonic_plus.RateLimit.{
  RateLimiter, token, new_rate_limiter, available, allow, PerClientRateLimiter, busy_clients,
  allow_client,
}

-- A client's limiter, and a full one where it has none.
unfoldable pub limiter_of : PerClientRateLimiter → String → RateLimiter
limiter_of p key = elim (lookup dec_str key p.clients) [
  | some l ↦ l
  | none ↦ new_rate_limiter p.client_rate p.client_burst 0
]

-- A request: the wait before it, and the client's name.
unfoldable pub ask_all :
    List (ℕ × String) → ℕ → PerClientRateLimiter → PerClientRateLimiter × List Bool
ask_all [] now p = (p, [])
ask_all ((w, key) ∷ rest) now p =
    let first = allow_client key (now + w) p in
    let later = ask_all rest (now + w) first.0 in (later.0, first.1 ∷ later.1)

-- The limiters that are never removed, as a function of the client's name.
unfoldable pub update : String → RateLimiter → (String → RateLimiter) → String → RateLimiter
update key l f k = ite (dec_str key k) l (f k)

unfoldable pub ask_each : List (ℕ × String) → ℕ → (String → RateLimiter) → List Bool
ask_each [] now f = []
ask_each ((w, key) ∷ rest) now f =
    let first = allow (now + w) (f key) in first.1 ∷ ask_each rest (now + w) (update key first.0 f)

pub available_new : (t r b now : ℕ) → available t (new_rate_limiter r b now) ≡ b * token
unfolding available new_rate_limiter
available_new t r b now = ground arith

pub lookup-busy_clients :
    (now idle : ℕ) (k : String) (m : List (String × RateLimiter))
    → UniqueKeys dec_str m
    → lookup dec_str k (busy_clients now idle m) ≡ elim (lookup dec_str k m) [
      | none ↦ none
      | some l ↦ if ltb idle (now - l.last_update) then none else some l
    ]
unfolding lookup busy_clients
lookup-busy_clients now idle k [] u = refl
lookup-busy_clients now idle k ((j, l) ∷ m) u = elim (dec_str k j) [
  | yes p ↦
      let gone = subst (λ x. lookup dec_str x m ≡ none) (sym p) u.0 in
      let later = lookup-busy_clients now idle k m u.1 in ground (arith, gone, later)
  | no p ↦ ground (arith, lookup-busy_clients now idle k m u.1)
]

pub busy_clients-UniqueKeys :
    (now idle : ℕ) (m : List (String × RateLimiter))
    → UniqueKeys dec_str m
    → UniqueKeys dec_str (busy_clients now idle m)
unfolding busy_clients
busy_clients-UniqueKeys now idle [] u = tt
busy_clients-UniqueKeys now idle ((j, l) ∷ m) u =
    let rest = busy_clients-UniqueKeys now idle m u.1 in
    let fresh : lookup dec_str j (busy_clients now idle m) ≡ none =
      ground (arith, lookup-busy_clients now idle j m u.1, u.0) in
    elim (Bool-cases (ltb idle (now - l.last_update))) [
      | inl h ↦ rw h rest
      | inr h ↦ rw h (fresh, rest)
    ]

-- The limiters that are never removed have the tokens of those in the map, from now on.
pub record Refines (now : ℕ) (f : String → RateLimiter) (p : PerClientRateLimiter) : Type 0 where
  pub unique : UniqueKeys dec_str p.clients
  pub rates : (key : String) → ((f key).rate ≡ p.client_rate) × ((f key).burst ≡ p.client_burst)
  pub held :
      (key : String)
      → ((limiter_of p key).rate ≡ p.client_rate) × ((limiter_of p key).burst ≡ p.client_burst)
  pub same :
      (key : String) (w : ℕ) → available (now + w) (f key) ≡ available (now + w) (limiter_of p key)
  pub enough : p.client_burst * token ≤ p.max_idle_time * p.client_rate
