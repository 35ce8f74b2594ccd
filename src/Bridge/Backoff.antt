-- ===== src/Bridge/Backoff.antt =====
-- The waits of runEventStream in internal/handlers/serverevents/bridge.go.
use claude_mnemonic_plus.Prelude.{
  ℕ, zero, suc, ◌*◌, ◌≤◌, ◌≡◌, refl, ap, ◌∙◌, List, [], ◌∷◌, leb, arith, if◌then◌else◌, map,
}
use claude_mnemonic_plus.Bridge.{
  Bridge, Attempt, StreamOutcome, open_failed, received, backoff_min, backoff_max, consume_stream,
  next_backoff, stream_loop, run_event_stream,
}

unfoldable pub power : ℕ → ℕ
power zero = 1
power (suc n) = power n * 2

-- The wait after n failed attempts since a stream was last opened: 2 ^ n seconds, and 60 at most.
unfoldable pub window : ℕ → ℕ
window n = let wait = power n * 1000000000 in if leb wait backoff_max then wait else backoff_max

abbrev pub failures : StreamOutcome → ℕ → ℕ
failures open_failed n = n
failures (received evs) n = 0

-- The number of failed attempts before the last one since a stream was opened, at each wait.
unfoldable pub streaks : ℕ → List Attempt → List ℕ
streaks n [] = []
streaks n (a ∷ rounds) =
    let here = failures a.stream n in
    let rest = streaks (suc here) rounds in
    if a.cancelled_before
    then []
    else if a.cancelled_after
    then []
    else here ∷ (if a.cancelled_waiting then [] else rest)

power-positive : (n : ℕ) → 1 ≤ power n
unfolding power
power-positive zero = omega arith
power-positive (suc n) = omega (arith, power-positive n)

next_backoff-window : (n : ℕ) → next_backoff (window n) ≡ window (suc n)
unfolding window next_backoff power
next_backoff-window n = ground (arith, power-positive n)

module _ {Bytes : Type 0} where
  wait-window :
      (o : StreamOutcome) (n : ℕ) (b : Bridge Bytes)
      → (if (consume_stream o b).0 then backoff_min else window n) ≡ window (failures o n)
  unfolding consume_stream window power
  wait-window open_failed n b = refl
  wait-window (received evs) n b = refl

  stream_loop-window :
      (rounds : List Attempt) (n : ℕ) (b : Bridge Bytes)
      → (stream_loop (window n) rounds b).1.1 ≡ map window (streaks n rounds)
  unfolding stream_loop streaks
  stream_loop-window [] n b = refl
  stream_loop-window (a ∷ rounds) n b =
      let here = failures a.stream n in
      let e = wait-window a.stream n b in
      let b1 = (consume_stream a.stream b).1.0 in
      let later =
        ap (λ w. (stream_loop w rounds b1).1.1) (ap next_backoff e ∙ next_backoff-window here)
        ∙ stream_loop-window rounds (suc here) b1 in
      ground (arith, e, later)

  -- Over any rounds, each wait of runEventStream is 2 ^ n seconds and 60 at most, where n is the
  -- number of attempts since the last that opened a stream, 0 if this one did, and the number of
  -- earlier attempts if none did.
  pub run_event_stream-window :
      (rounds : List Attempt) (b : Bridge Bytes)
      → (run_event_stream rounds b).1.1 ≡ map window (streaks 0 rounds)
  unfolding run_event_stream window power
  run_event_stream-window rounds b = stream_loop-window rounds 0 b
