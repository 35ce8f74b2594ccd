-- ===== src/RateLimit/Refinement.antt =====
-- Removing idle clients in internal/worker/ratelimit.go does not change an answer.
use claude_mnemonic_plus.Prelude.{
  ℕ, ◌+◌, ◌*◌, ◌≤◌, ◌≡◌, refl, List, [], ◌∷◌, arith, inl, inr, subst, sym, ◌∙◌, String, some,
  lookup, insert, lookup-insert, insert-UniqueKeys, dec_str, ite, Option-cases, UniqueKeys,
}
use claude_mnemonic_plus.RateLimit.{
  RateLimiter, new_rate_limiter, available, allow, PerClientRateLimiter, cleanup_locked,
  cleanup_due, get_limiter, allow_client, new_per_client_rate_limiter,
}
use claude_mnemonic_plus.RateLimit.Bounds.{allow-rate, allow-burst}
use claude_mnemonic_plus.RateLimit.Cleanup.{allow-later, cleanup_due-Refines}
use claude_mnemonic_plus.RateLimit.Clients.{
  limiter_of, ask_all, update, ask_each, available_new, Refines,
}

-- One request of a client, both ways.
module _ (now : ℕ) (key : String) (f : String → RateLimiter) (p : PerClientRateLimiter)
    (s : Refines now f p) where
  given : Refines now f (cleanup_due now p)
  given = cleanup_due-Refines now f p s

  cleanup_due-client_rate : (cleanup_due now p).client_rate ≡ p.client_rate
  unfolding cleanup_due cleanup_locked
  cleanup_due-client_rate = ground arith

  cleanup_due-client_burst : (cleanup_due now p).client_burst ≡ p.client_burst
  unfolding cleanup_due cleanup_locked
  cleanup_due-client_burst = ground arith

  -- The limiter that getLimiter returns, against the one that is never removed.
  get_limiter-same :
      ((f key).rate ≡ (get_limiter key now p).1.rate)
      × ((f key).burst ≡ (get_limiter key now p).1.burst)
      × (available (now + 0) (f key) ≡ available (now + 0) (get_limiter key now p).1)
  unfolding get_limiter limiter_of
  get_limiter-same =
      let r = s.rates key in
      let h = given.held key in
      let a = given.same key 0 in
      let er = cleanup_due-client_rate in
      let eb = cleanup_due-client_burst in
      let q = cleanup_due now p in
      elim (Option-cases (lookup dec_str key q.clients)) [
        | inl e ↦
            let full = available_new (now + 0) q.client_rate q.client_burst 0 in
            let new = available_new (now + 0) p.client_rate p.client_burst now in
            unfold new_rate_limiter in
            (
              ground (arith, r.0, e),
              ground (arith, r.1, e),
              ground (arith, a, full, new, e, er, eb),
            )
        | inr (l, e) ↦
            (ground (arith, h.0, r.0, e, er), ground (arith, h.1, r.1, e, eb), ground (arith, a, e))
      ]

  lookup-allow_client :
      (j : String)
      → lookup dec_str j (allow_client key now p).0.clients
        ≡ ite
            (dec_str key j)
            (some (allow now (get_limiter key now p).1).0)
            (lookup dec_str j (cleanup_due now p).clients)
  unfolding allow_client get_limiter
  lookup-allow_client j =
      let q = cleanup_due now p in
      let l = new_rate_limiter p.client_rate p.client_burst now in
      elim (Option-cases (lookup dec_str key q.clients)) [
        | inl e ↦ ground (
          arith,
          e,
          lookup-insert dec_str key j (allow now l).0 (insert dec_str key l q.clients),
          lookup-insert dec_str key j l q.clients,
        )
        | inr (l1, e) ↦ ground (arith, e, lookup-insert dec_str key j (allow now l1).0 q.clients)
      ]

  allow_client-UniqueKeys : UniqueKeys dec_str (allow_client key now p).0.clients
  unfolding allow_client get_limiter
  allow_client-UniqueKeys =
      let q = cleanup_due now p in
      let l = new_rate_limiter p.client_rate p.client_burst now in
      let u = given.unique in
      elim (Option-cases (lookup dec_str key q.clients)) [
        | inl e ↦
            let v = (allow now l).0 in
            let same : (allow_client key now p).0.clients
                ≡ insert dec_str key v (insert dec_str key l q.clients) =
              ground (arith, e) in
            subst (UniqueKeys dec_str) (sym same)
              (insert-UniqueKeys dec_str key v _ (insert-UniqueKeys dec_str key l q.clients u))
        | inr (l1, e) ↦
            let v = (allow now l1).0 in
            let same : (allow_client key now p).0.clients ≡ insert dec_str key v q.clients =
              ground (arith, e) in
            subst (UniqueKeys dec_str) (sym same) (insert-UniqueKeys dec_str key v q.clients u)
      ]

  allow_client-settings :
      ((allow_client key now p).0.client_rate ≡ p.client_rate)
      × ((allow_client key now p).0.client_burst ≡ p.client_burst)
      × ((allow_client key now p).0.max_idle_time ≡ p.max_idle_time)
  unfolding allow_client get_limiter cleanup_due cleanup_locked
  allow_client-settings = (ground arith, ground arith, ground arith)

  limiter_of-allow_client :
      (j : String)
      → limiter_of (allow_client key now p).0 j
        ≡ ite
            (dec_str key j)
            (allow now (get_limiter key now p).1).0
            (limiter_of (cleanup_due now p) j)
  unfolding limiter_of
  limiter_of-allow_client j =
      let (r, b, m) = allow_client-settings in
      ground (arith, lookup-allow_client j, r, b, cleanup_due-client_rate, cleanup_due-client_burst)

  allow_client-held :
      (j : String)
      → ((limiter_of (allow_client key now p).0 j).rate ≡ p.client_rate)
        × ((limiter_of (allow_client key now p).0 j).burst ≡ p.client_burst)
  allow_client-held j =
      let l = (get_limiter key now p).1 in
      let e = limiter_of-allow_client j in
      let (er, eb, ea) = get_limiter-same in
      let h = given.held j in
      let r = s.rates key in
      (
        ground (arith, e, er, h.0, r.0, allow-rate now l, cleanup_due-client_rate),
        ground (arith, e, eb, h.1, r.1, allow-burst now l, cleanup_due-client_burst),
      )

  now_zero : now + 0 ≡ now
  now_zero = omega arith

  both :
      (w : ℕ)
      → ((allow now (f key)).1 ≡ (allow now (get_limiter key now p).1).1)
        × (available (now + w) (allow now (f key)).0
            ≡ available (now + w) (allow now (get_limiter key now p).1).0)
  both w =
      let (r, b, a) = get_limiter-same in
      allow-later now w (f key) (get_limiter key now p).1 r b
        (subst (λ n. available n (f key) ≡ available n (get_limiter key now p).1) now_zero a)

  pub allow_client-answer : (allow_client key now p).1 ≡ (allow now (f key)).1
  unfolding allow_client
  allow_client-answer = sym (both 0).0

  update-rates :
      (j : String)
      → ((update key (allow now (f key)).0 f j).rate ≡ p.client_rate)
        × ((update key (allow now (f key)).0 f j).burst ≡ p.client_burst)
  unfolding update
  update-rates j =
      let h = s.rates j in
      let r = s.rates key in
      (
        ground (arith, h.0, r.0, allow-rate now (f key)),
        ground (arith, h.1, r.1, allow-burst now (f key)),
      )

  update-same :
      (j : String) (w : ℕ)
      → available (now + w) (update key (allow now (f key)).0 f j)
        ≡ available (now + w) (limiter_of (allow_client key now p).0 j)
  unfolding update
  update-same j w = ground (arith, limiter_of-allow_client j, (both w).1, given.same j w)

  pub allow_client-Refines :
      Refines now (update key (allow now (f key)).0 f) (allow_client key now p).0
  allow_client-Refines =
      let (er, eb, em) = allow_client-settings in
      record {
        unique = allow_client-UniqueKeys;
        rates = λ j. ((update-rates j).0 ∙ sym er, (update-rates j).1 ∙ sym eb);
        held = λ j. ((allow_client-held j).0 ∙ sym er, (allow_client-held j).1 ∙ sym eb);
        same = update-same;
        enough = ground (arith, er, eb, em, s.enough);
      }

later-Refines :
    (now w : ℕ) (f : String → RateLimiter) (p : PerClientRateLimiter)
    → Refines now f p
    → Refines (now + w) f p
later-Refines now w f p s = record {
  unique = s.unique;
  rates = s.rates;
  held = s.held;
  same = λ j v.
      let e : now + (w + v) ≡ (now + w) + v = omega arith in
      subst (λ n. available n (f j) ≡ available n (limiter_of p j)) e (s.same j (w + v));
  enough = s.enough;
}

ask_all-each :
    (asked : List (ℕ × String)) (now : ℕ) (f : String → RateLimiter) (p : PerClientRateLimiter)
    → Refines now f p
    → (ask_all asked now p).1 ≡ ask_each asked now f
unfolding ask_all ask_each
ask_all-each [] now f p s = refl
ask_all-each ((w, key) ∷ asked) now f p s =
    let s1 = later-Refines now w f p s in
    let rest =
      ask_all-each asked (now + w) (update key (allow (now + w) (f key)).0 f)
        (allow_client key (now + w) p).0 (allow_client-Refines (now + w) key f p s1) in
    rw (allow_client-answer (now + w) key f p s1, rest) refl

-- If the burst is at most what the rate gives in 10 minutes, PerClientRateLimiter answers every
-- sequence of requests as if each client had a bucket of its own from the beginning that is never
-- removed: the cleanup of idle clients changes no answer, and no client changes the answers to
-- another.
pub ask_all-refines :
    (asked : List (ℕ × String)) (rate burst now : ℕ)
    → burst ≤ 600 * rate
    → (ask_all asked now (new_per_client_rate_limiter rate burst now)).1
      ≡ ask_each asked now (λ key. new_rate_limiter rate burst now)
ask_all-refines asked rate burst now h =
    ask_all-each asked now (λ key. new_rate_limiter rate burst now)
      (new_per_client_rate_limiter rate burst now)
      (unfold new_per_client_rate_limiter in
        record {
          unique = tt;
          rates = λ key. unfold new_rate_limiter in (refl, refl);
          held = λ key. unfold limiter_of lookup new_rate_limiter in (refl, refl);
          same = λ key w.
              unfold limiter_of lookup in
              available_new (now + w) rate burst now ∙ sym (available_new (now + w) rate burst 0);
          enough = omega arith;
        })
