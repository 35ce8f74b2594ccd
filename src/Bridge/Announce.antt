-- ===== src/Bridge/Announce.antt =====
-- Which removals the bridge of internal/handlers/serverevents/bridge.go passes on, whether they
-- arrive on the stream or with a heartbeat.
use claude_mnemonic_plus.Prelude.{
  ◌==◌, ◌≡◌, refl, sym, ap, ◌∙◌, String, Option, none, some, List, [], ◌∷◌, ◌++◌, map, ite, take,
  dec_str, inl, inr, Bool-cases, Option-cases, arith, if◌then◌else◌,
}
use claude_mnemonic_plus.Dedup.{DedupKey, dedup_capacity, new_lru, mark, contains}
use claude_mnemonic_plus.Dedup.Recent.{recent, mark_all, mark-mark_all}
use claude_mnemonic_plus.Bridge.{
  Bridge, ProjectEvent, FanOut, event_type_removed, removed_key, handle_event, handle_removed,
  handle_events, handle_removed_all, fan_out_removal,
}

-- What reaches the bridge: an event of the stream, or one identifier of a heartbeat's answer. The
-- two goroutines interleave at these steps, each of which passes the cache's lock once.
pub data BridgeStep : Type 0 where
  streamed : ProjectEvent → BridgeStep
  reconciled : String → BridgeStep

-- The project that a step announces as removed.
unfoldable pub removal_of : BridgeStep → Option String
removal_of (streamed ev) =
    if ev.event_type == event_type_removed
    then ite (dec_str (ev.project_id) "") none (some ev.project_id)
    else none
removal_of (reconciled p) = ite (dec_str p "") none (some p)

unfoldable pub cons_option : Option String → List String → List String
cons_option none ps = ps
cons_option (some p) ps = p ∷ ps

unfoldable pub removals : List BridgeStep → List String
removals [] = []
removals (s ∷ ss) = cons_option (removal_of s) (removals ss)

-- The projects to pass on, when `seen` are the keys marked already, the latest first: those that
-- are not among the 256 distinct ones marked last.
unfoldable pub announced : List DedupKey → List String → List String
announced seen [] = []
announced seen (p ∷ ps) =
    let rest = announced (removed_key p ∷ seen) ps in
    if contains (removed_key p) (take dedup_capacity (recent seen)) then rest else p ∷ rest

module _ {Bytes : Type 0} where
  unfoldable pub bridge_step : BridgeStep → Bridge Bytes → Bridge Bytes × List FanOut
  bridge_step (streamed ev) b = handle_event ev b
  bridge_step (reconciled p) b = handle_removed p b

  unfoldable pub bridge_steps : List BridgeStep → Bridge Bytes → Bridge Bytes × List FanOut
  bridge_steps [] b = (b, [])
  bridge_steps (s ∷ ss) b =
      let (b1, here) = bridge_step s b in let (b2, rest) = bridge_steps ss b1 in (b2, here ++ rest)

  -- What a removal with an identifier does.
  abbrev pub announce : String → Bridge Bytes → Bridge Bytes × List FanOut
  announce p b = (
    record b { dedup = (mark (removed_key p) b.dedup).0 },
    if (mark (removed_key p) b.dedup).1 then [] else fan_out_removal p b.reg ∷ [],
  )

  abbrev pub announce_option : Option String → Bridge Bytes → Bridge Bytes × List FanOut
  announce_option none b = (b, [])
  announce_option (some p) b = announce p b

  handle_removed_lem :
      (p : String) (b : Bridge Bytes)
      → handle_removed p b ≡ announce_option (removal_of (reconciled p)) b
  unfolding handle_removed removal_of
  handle_removed_lem p b = elim (dec_str p "") [ yes e ↦ ground arith | no ne ↦ ground arith ]

  -- An event of the stream and an identifier of a heartbeat are handled alike.
  bridge_step_lem :
      (s : BridgeStep) (b : Bridge Bytes) → bridge_step s b ≡ announce_option (removal_of s) b
  unfolding bridge_step handle_event removal_of
  bridge_step_lem (reconciled p) b = handle_removed_lem p b
  bridge_step_lem (streamed ev) b = elim (Bool-cases (ev.event_type == event_type_removed)) [
    | inl is ↦ elim (dec_str (ev.project_id) "") [ yes e ↦ ground arith | no ne ↦ ground arith ]
    | inr other ↦ ground arith
  ]

  bridge_steps-none :
      (s : BridgeStep) (ss : List BridgeStep) (b : Bridge Bytes)
      → removal_of s ≡ none
      → (bridge_steps (s ∷ ss) b).1 ≡ (bridge_steps ss b).1
  unfolding bridge_steps
  bridge_steps-none s ss b h =
      let e : bridge_step s b ≡ (b, []) = bridge_step_lem s b ∙ ap (λ o. announce_option o b) h in
      ap (λ r. r.1 ++ (bridge_steps ss r.0).1) e

  bridge_steps-some :
      (s : BridgeStep) (ss : List BridgeStep) (b : Bridge Bytes) (p : String)
      → removal_of s ≡ some p
      → (bridge_steps (s ∷ ss) b).1 ≡ (announce p b).1 ++ (bridge_steps ss (announce p b).0).1
  unfolding bridge_steps
  bridge_steps-some s ss b p h =
      let e : bridge_step s b ≡ announce p b =
        bridge_step_lem s b ∙ ap (λ o. announce_option o b) h in
      ap (λ r. r.1 ++ (bridge_steps ss r.0).1) e

  announce-contains :
      (seen : List DedupKey) (p : String) (b : Bridge Bytes)
      → b.dedup ≡ mark_all seen (new_lru dedup_capacity)
      → (announce p b).1 ≡ (
          if contains (removed_key p) (take dedup_capacity (recent seen))
          then []
          else fan_out_removal p b.reg ∷ [])
  announce-contains seen p b h =
      ap (λ x. if x then [] else fan_out_removal p b.reg ∷ [])
        (ap (λ l. (mark (removed_key p) l).1) h
          ∙ mark-mark_all dedup_capacity seen (removed_key p) (omega arith))

  announced-from :
      (ss : List BridgeStep) (seen : List DedupKey) (b : Bridge Bytes)
      → b.dedup ≡ mark_all seen (new_lru dedup_capacity)
      → (bridge_steps ss b).1 ≡ map (λ p. fan_out_removal p b.reg) (announced seen (removals ss))
  unfolding removals cons_option announced bridge_steps mark_all
  announced-from [] seen b h = refl
  announced-from (s ∷ ss) seen b h = elim (Option-cases (removal_of s)) [
    | inl e ↦
        bridge_steps-none s ss b e
        ∙ announced-from ss seen b h
        ∙ ap
            (λ o. map (λ p. fan_out_removal p b.reg) (announced seen (cons_option o (removals ss))))
            (sym e)
    | inr (p, e) ↦
        let rest =
          announced-from ss (removed_key p ∷ seen) (announce p b).0
            (ap (λ l. (mark (removed_key p) l).0) h) in
        let here = announce-contains seen p b h in
        bridge_steps-some s ss b p e
        ∙ ap (λ l. l ++ (bridge_steps ss (announce p b).0).1) here
        ∙ ground arith
  ]

  -- A bridge with a new cache passes on, in order and each to every module that wants removals in
  -- registration order, the removals with an identifier that are not among the 256 distinct ones
  -- marked last, however the events of the stream and the identifiers of heartbeats interleave,
  -- and whether or not callbacks panic.
  pub bridge_steps-announced :
      (ss : List BridgeStep) (b : Bridge Bytes)
      → b.dedup ≡ new_lru dedup_capacity
      → (bridge_steps ss b).1 ≡ map (λ p. fan_out_removal p b.reg) (announced [] (removals ss))
  unfolding mark_all
  bridge_steps-announced ss b h = announced-from ss [] b h

  -- A whole stream and a whole heartbeat's answer are runs of such steps.
  pub handle_events_lem :
      (evs : List ProjectEvent) (b : Bridge Bytes)
      → handle_events evs b ≡ bridge_steps (map streamed evs) b
  unfolding handle_events bridge_steps bridge_step
  handle_events_lem [] b = refl
  handle_events_lem (ev ∷ evs) b =
      let r = handle_event ev b in ap (λ x. (x.0, r.1 ++ x.1)) (handle_events_lem evs r.0)

  pub handle_removed_all_lem :
      (ps : List String) (b : Bridge Bytes)
      → handle_removed_all ps b ≡ bridge_steps (map reconciled ps) b
  unfolding handle_removed_all bridge_steps bridge_step
  handle_removed_all_lem [] b = refl
  handle_removed_all_lem (p ∷ ps) b =
      let r = handle_removed p b in ap (λ x. (x.0, r.1 ++ x.1)) (handle_removed_all_lem ps r.0)
