-- ===== src/RateLimit/Cleanup.antt =====
-- The cleanup of internal/worker/ratelimit.go against limiters that are never removed.
use claude_mnemonic_plus.Prelude.{
  ℕ, ◌+◌, ◌-◌, ◌*◌, ◌≤◌, ◌<◌, ◌≡◌, refl, arith, inl, inr, ◌⊎◌, Bool-cases, leb, ltb, sym, ◌∙◌,
  String, lookup, dec_str, ap, Option-cases,
}
use claude_mnemonic_plus.RateLimit.{
  RateLimiter, token, new_rate_limiter, available, allow, PerClientRateLimiter, cleanup_locked,
  cleanup_due,
}
use claude_mnemonic_plus.RateLimit.Bounds.{mul_le}
use claude_mnemonic_plus.RateLimit.Clients.{
  limiter_of, available_new, lookup-busy_clients, busy_clients-UniqueKeys, Refines,
}

-- After more than the idle time the bucket is full.
available_idle :
    (now w idle : ℕ) (l : RateLimiter)
    → idle < now - l.last_update
    → l.burst * token ≤ idle * l.rate
    → available (now + w) l ≡ l.burst * token
unfolding available
available_idle now w idle l h e =
    let m = mul_le idle ((now + w) - l.last_update) l.rate (omega arith) in ground arith

-- What the bucket holds later depends on its tokens, its rate and its burst.
pub allow-later :
    (now w : ℕ) (a c : RateLimiter)
    → a.rate ≡ c.rate
    → a.burst ≡ c.burst
    → available now a ≡ available now c
    → ((allow now a).1 ≡ (allow now c).1)
      × (available (now + w) (allow now a).0 ≡ available (now + w) (allow now c).0)
unfolding allow
allow-later now w a c r b e = elim (Bool-cases (leb token (available now c))) [
  | inl h ↦ rw (e, h) (refl, unfold available in rw (r, b) refl)
  | inr h ↦ rw (e, h) (refl, unfold available in rw (r, b) refl)
]

module _ (now : ℕ) (f : String → RateLimiter) (p : PerClientRateLimiter) (s : Refines now f p) where
  -- A client keeps its limiter, or has none any more and had been idle.
  cleanup_locked-cases :
      (key : String)
      → (limiter_of (cleanup_locked now p) key ≡ limiter_of p key)
        ⊎ ((limiter_of (cleanup_locked now p) key ≡ new_rate_limiter p.client_rate p.client_burst 0)
            × (p.max_idle_time < now - (limiter_of p key).last_update))
  unfolding limiter_of cleanup_locked
  cleanup_locked-cases key =
      let kept = lookup-busy_clients now p.max_idle_time key p.clients s.unique in
      elim (Option-cases (lookup dec_str key p.clients)) [
        | inl e ↦ inl (ground (arith, kept, e))
        | inr (l, e) ↦ elim (Bool-cases (ltb p.max_idle_time (now - l.last_update))) [
          | inr fresh ↦ inl (ground (arith, kept, e, fresh))
          | inl idle ↦ inr (ground (arith, kept, e, idle), ground (arith, e, idle))
        ]
      ]

  cleanup_locked-limiter_of :
      (key : String) (w : ℕ)
      → available (now + w) (limiter_of (cleanup_locked now p) key)
        ≡ available (now + w) (limiter_of p key)
  cleanup_locked-limiter_of key w = elim (cleanup_locked-cases key) [
    | inl e ↦ ap (available (now + w)) e
    | inr (e, idle) ↦
        let h = s.held key in
        let l = limiter_of p key in
        let enough : l.burst * token ≤ p.max_idle_time * l.rate =
          ground (arith, h.0, h.1, s.enough) in
        ap (available (now + w)) e
        ∙ available_new (now + w) p.client_rate p.client_burst 0
        ∙ sym (ap (λ b. b * token) h.1)
        ∙ sym (available_idle now w p.max_idle_time l idle enough)
  ]

  cleanup_locked-held :
      (key : String)
      → ((limiter_of (cleanup_locked now p) key).rate ≡ p.client_rate)
        × ((limiter_of (cleanup_locked now p) key).burst ≡ p.client_burst)
  cleanup_locked-held key = elim (cleanup_locked-cases key) [
    | inl e ↦ (ap (λ l. l.rate) e ∙ (s.held key).0, ap (λ l. l.burst) e ∙ (s.held key).1)
    | inr (e, idle) ↦ unfold new_rate_limiter in (ap (λ l. l.rate) e, ap (λ l. l.burst) e)
  ]

  cleanup_locked-Refines : Refines now f (cleanup_locked now p)
  cleanup_locked-Refines = record {
    unique =
        unfold cleanup_locked in busy_clients-UniqueKeys now p.max_idle_time p.clients s.unique;
    rates = unfold cleanup_locked in s.rates;
    held = λ key. unfold cleanup_locked in cleanup_locked-held key;
    same = λ key w. s.same key w ∙ sym (cleanup_locked-limiter_of key w);
    enough = unfold cleanup_locked in s.enough;
  }

  pub cleanup_due-Refines : Refines now f (cleanup_due now p)
  unfolding cleanup_due
  cleanup_due-Refines = elim (Bool-cases (ltb p.cleanup_interval (now - p.last_cleanup))) [
    | inl h ↦ rw h cleanup_locked-Refines
    | inr h ↦ rw h s
  ]
