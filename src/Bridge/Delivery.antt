-- ===== src/Bridge/Delivery.antt =====
-- How often the bridge of internal/handlers/serverevents/bridge.go passes a removal on: at least
-- once always, and exactly once while its cache forgets nothing.
use claude_mnemonic_plus.Prelude.{
  ℕ, suc, ◌≤◌, ◌+◌, ◌≡◌, ◌≢◌, refl, sym, ap, ◌∙◌, String, Bool, true, false, List, [], ◌∷◌, map,
  ite, take, take_all, dec_str, length, inl, inr, Bool-cases, arith, if◌then◌else◌,
}
use claude_mnemonic_plus.Dedup.{DedupKey, dec_key, dedup_capacity, new_lru, contains, remove_key}
use claude_mnemonic_plus.Dedup.Recent.{
  recent, contains-remove_key, contains-take, recent-Distinct, Distinct,
}
use claude_mnemonic_plus.Bridge.{Bridge, FanOut, removed_key, fan_out_removal}
use claude_mnemonic_plus.Bridge.Announce.{
  BridgeStep, removals, announced, bridge_steps, bridge_steps-announced,
}

unfoldable pub is_in : String → List String → Bool
is_in p [] = false
is_in p (q ∷ qs) = ite (dec_str q p) true (is_in p qs)

-- How many of the fan-outs are for a project.
unfoldable pub deliveries : String → List FanOut → ℕ
deliveries p [] = 0
deliveries p (f ∷ fs) = let rest = deliveries p fs in ite (dec_str (f.0) p) (suc rest) rest

-- The keys that the removals mark, the latest first.
unfoldable pub marked : List String → List DedupKey → List DedupKey
marked [] seen = seen
marked (p ∷ ps) seen = marked ps (removed_key p ∷ seen)

contains-recent : (k : DedupKey) (ks : List DedupKey) → contains k (recent ks) ≡ contains k ks
unfolding recent contains
contains-recent k [] = refl
contains-recent k (j ∷ ks) =
    ground (arith, contains-remove_key k j (recent ks), contains-recent k ks)

remove_key_absent-le :
    (k : DedupKey) (xs : List DedupKey)
    → contains k xs ≡ false
    → length xs ≤ length (remove_key k xs)
unfolding remove_key contains
remove_key_absent-le k [] h = omega arith
remove_key_absent-le k (x ∷ xs) h = ground (arith, remove_key_absent-le k xs)

length-remove_key :
    (k : DedupKey) (xs : List DedupKey) → Distinct xs → length xs ≤ suc (length (remove_key k xs))
unfolding remove_key
length-remove_key k [] d = omega arith
length-remove_key k (x ∷ xs) d = elim (dec_key x k) [
  | yes e ↦ ground (arith, remove_key_absent-le k xs (ap (λ y. contains y xs) (sym e) ∙ d.0))
  | no ne ↦ ground (arith, length-remove_key k xs d.1)
]

recent-marked :
    (ps : List String) (seen : List DedupKey)
    → length (recent seen) ≤ length (recent (marked ps seen))
unfolding marked recent
recent-marked [] seen = omega arith
recent-marked (p ∷ ps) seen = omega (
  arith,
  length-remove_key (removed_key p) (recent seen) (recent-Distinct seen),
  recent-marked ps (removed_key p ∷ seen),
)

key_ne : (p q : String) → p ≢ q → removed_key p ≢ removed_key q
key_ne p q ne = λ e. ne cc

contains-removed_key :
    (p q : String) (seen : List DedupKey)
    → contains (removed_key p) (removed_key q ∷ seen)
      ≡ ite (dec_str q p) true (contains (removed_key p) seen)
unfolding contains
contains-removed_key p q seen = elim (dec_str q p) [
  | yes e ↦ rw e (ground arith)
  | no ne ↦ let other = key_ne q p ne in ground arith
]

module _ {Bytes : Type 0} (p : String) (b : Bridge Bytes) where
  -- The deliveries to expect when `seen` are the keys marked before the removals.
  unfoldable sent : List DedupKey → List String → ℕ
  sent seen ps = deliveries p (map (λ q. fan_out_removal q b.reg) (announced seen ps))

  sent-seen :
      (q : String) (ps : List String) (seen : List DedupKey)
      → contains (removed_key q) (take dedup_capacity (recent seen)) ≡ true
      → sent seen (q ∷ ps) ≡ sent (removed_key q ∷ seen) ps
  unfolding sent announced
  sent-seen q ps seen h =
      ap
        (λ x. deliveries p (
          map (λ r. fan_out_removal r b.reg)
            (if x
              then announced (removed_key q ∷ seen) ps
              else q ∷ announced (removed_key q ∷ seen) ps)))
        h

  sent-new :
      (q : String) (ps : List String) (seen : List DedupKey)
      → contains (removed_key q) (take dedup_capacity (recent seen)) ≡ false
      → sent seen (q ∷ ps) ≡ ite (dec_str q p) 1 0 + sent (removed_key q ∷ seen) ps
  unfolding sent announced deliveries fan_out_removal
  sent-new q ps seen h =
      ap
        (λ x. deliveries p (
          map (λ r. fan_out_removal r b.reg)
            (if x
              then announced (removed_key q ∷ seen) ps
              else q ∷ announced (removed_key q ∷ seen) ps)))
        h
      ∙ elim (dec_str q p) [ yes e ↦ ground arith | no ne ↦ ground arith ]

  sent-at_least :
      (ps : List String) (seen : List DedupKey)
      → is_in p ps ≡ true
      → contains (removed_key p) seen ≡ false
      → 1 ≤ sent seen ps
  unfolding is_in
  sent-at_least [] seen m new = absurd cc
  sent-at_least (q ∷ ps) seen m new = elim (dec_str q p) [
    | yes e ↦
        let away : contains (removed_key q) (take dedup_capacity (recent seen)) ≡ false =
          contains-take dedup_capacity (removed_key q) (recent seen) (
            contains-recent (removed_key q) seen
            ∙ ap (λ r. contains (removed_key r) seen) e
            ∙ new) in
        ground (arith, sent-new q ps seen away)
    | no ne ↦
        let still : contains (removed_key p) (removed_key q ∷ seen) ≡ false =
          ground (arith, contains-removed_key p q seen) in
        let later = sent-at_least ps (removed_key q ∷ seen) (ground arith) still in
        elim (Bool-cases (contains (removed_key q) (take dedup_capacity (recent seen)))) [
          | inl h ↦ omega (arith, later, sent-seen q ps seen h)
          | inr h ↦ ground (arith, later, sent-new q ps seen h)
        ]
  ]

  -- Within the cache's capacity nothing is forgotten.
  contains-within :
      (q : String) (ps : List String) (seen : List DedupKey)
      → length (recent (marked (q ∷ ps) seen)) ≤ dedup_capacity
      → contains (removed_key q) (take dedup_capacity (recent seen)) ≡ contains (removed_key q) seen
  contains-within q ps seen fits =
      ap (contains (removed_key q))
        (take_all dedup_capacity (recent seen) (omega (arith, recent-marked (q ∷ ps) seen)))
      ∙ contains-recent (removed_key q) seen

  sent-once :
      (ps : List String) (seen : List DedupKey)
      → length (recent (marked ps seen)) ≤ dedup_capacity
      → sent seen ps ≡ (if contains (removed_key p) seen then 0 else if is_in p ps then 1 else 0)
  unfolding sent announced deliveries is_in marked
  sent-once [] seen fits = ground arith
  sent-once (q ∷ ps) seen fits =
      let ih = sent-once ps (removed_key q ∷ seen) fits in
      let known = contains-within q ps seen fits in
      let next = contains-removed_key p q seen in
      elim (Bool-cases (contains (removed_key q) seen)) [
        | inl h ↦
            let e = sent-seen q ps seen (known ∙ h) in
            elim (dec_str q p) [
              | yes same ↦
                  let here : contains (removed_key p) seen ≡ true =
                    ap (λ r. contains (removed_key r) seen) (sym same) ∙ h in
                  ground arith
              | no ne ↦ ground arith
            ]
        | inr h ↦
            let e = sent-new q ps seen (known ∙ h) in
            elim (dec_str q p) [
              | yes same ↦
                  let here : contains (removed_key p) seen ≡ false =
                    ap (λ r. contains (removed_key r) seen) (sym same) ∙ h in
                  ground arith
              | no ne ↦ ground arith
            ]
      ]

  -- A bridge with a new cache passes every announced removal on at least once, however the events
  -- of the stream and the identifiers of heartbeats interleave: if a non-empty project is among
  -- the removals, there is a fan-out for it.
  pub deliveries-bridge_steps :
      (ss : List BridgeStep)
      → b.dedup ≡ new_lru dedup_capacity
      → is_in p (removals ss) ≡ true
      → 1 ≤ deliveries p (bridge_steps ss b).1
  unfolding sent contains
  deliveries-bridge_steps ss h m = omega (
    arith,
    ap (deliveries p) (bridge_steps-announced ss b h),
    sent-at_least (removals ss) [] m refl,
  )

  -- While the removals name at most 256 distinct projects, a bridge with a new cache makes
  -- exactly one fan-out for each project that they name, however often they name it, and none for
  -- any other.
  pub deliveries_once :
      (ss : List BridgeStep)
      → b.dedup ≡ new_lru dedup_capacity
      → length (recent (marked (removals ss) [])) ≤ dedup_capacity
      → deliveries p (bridge_steps ss b).1 ≡ (if is_in p (removals ss) then 1 else 0)
  unfolding sent contains is_in
  deliveries_once ss h fits =
      ap (deliveries p) (bridge_steps-announced ss b h) ∙ sent-once (removals ss) [] fits
