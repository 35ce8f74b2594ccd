-- ===== src/Bridge/Tests.antt =====
-- Runs of the bridge over a registry whose first module panics, and the theorems at them.
use claude_mnemonic_plus.Prelude.{
  ℕ, ◌≤◌, ◌≡◌, refl, String, Bool, true, false, Option, none, some, List, [], ◌∷◌, map, length,
  dec_str, Bool-cases, arith, if◌then◌else◌,
}
use claude_mnemonic_plus.Module.{Outcome, returned, panicked}
use claude_mnemonic_plus.Registry.{Registry, ModuleEntry, discover, collect, removal_aware_modules}
use claude_mnemonic_plus.Dedup.{
  dec_key, dedup_capacity, new_lru, contains, remove_key, back, remove_back, evict, mark,
}
use claude_mnemonic_plus.Dedup.Recent.{recent}
use claude_mnemonic_plus.Bridge.{
  Bridge, ProjectEvent, SyncResponse, Attempt, open_failed, received, backoff_min, server_url,
  outgoing_context, new_bridge, local_project_ids, fan_out_removal, handle_event, handle_events,
  consume_stream, handle_removed, handle_removed_all, sync_project_state, next_backoff, stream_loop,
  run_event_stream,
}
use claude_mnemonic_plus.Bridge.Announce.{
  BridgeStep, streamed, reconciled, removal_of, cons_option, removals, announced, bridge_step,
  bridge_steps,
}
use claude_mnemonic_plus.Bridge.Delivery.{
  is_in, deliveries, marked, deliveries-bridge_steps, deliveries_once,
}
use claude_mnemonic_plus.Bridge.Backoff.{power, window, streaks, run_event_stream-window}

program : Unit {0}
unfolding dec_key new_lru contains remove_key back remove_back evict mark recent dec_str Bool-cases
    collect removal_aware_modules server_url outgoing_context new_bridge local_project_ids
    fan_out_removal handle_event handle_events consume_stream handle_removed handle_removed_all
    sync_project_state next_backoff stream_loop run_event_stream removal_of cons_option removals
    announced bridge_step bridge_steps is_in deliveries marked power window streaks
program = tt

abbrev listener : String → Outcome → ModuleEntry ℕ
listener name outcome = discover (record {
  name = name;
  init = λ deps. returned;
  shutdown = returned;
  snapshotter = none;
  lifecycle = none;
  removal_aware = some (record { on_project_removed = λ p. outcome });
  tool_provider = none;
  proxy_tool_provider = none;
})

abbrev two : Registry ℕ
two = record {
  entries = listener "engramcore" (panicked "nil map") ∷ listener "loom" returned ∷ [];
  tool_index = [];
  proxy_idx = none;
  frozen = true;
}

abbrev bridge : Bridge ℕ
bridge = record {
  client_id = "100-1";
  token = "";
  server_url = "http://engram:37777";
  reg = two;
  tracker = some ("a" ∷ "b" ∷ []);
  dedup = new_lru dedup_capacity;
}

abbrev event : ℕ → String → ProjectEvent
event kind p = record { event_id = 1; event_type = kind; project_id = p }

-- "a" is announced by the stream and by a heartbeat; an event of another type and an empty
-- identifier are ignored.
abbrev steps : List BridgeStep
steps =
    streamed (event 2 "b")
    ∷ streamed (event 1 "a")
    ∷ reconciled ""
    ∷ reconciled "a"
    ∷ reconciled "b"
    ∷ []

both_told :
    (bridge_steps steps bridge).1
    ≡ ("a", panicked "nil map" ∷ returned ∷ []) ∷ ("b", panicked "nil map" ∷ returned ∷ []) ∷ []
unfolding program
both_told = refl

abbrev reply_all : String → List String → Option SyncResponse
reply_all client_id ids = some (record { removed = ids; unknown = []; server_time_unix_ms = 0 })

heartbeat_tells : length (sync_project_state reply_all bridge).1 ≡ 2
unfolding program
heartbeat_tells = refl

bearer : outgoing_context "key" ≡ ("authorization", "Bearer key") ∷ []
unfolding program
bearer = refl

deliveries-bridge_steps_example : 1 ≤ deliveries "b" (bridge_steps steps bridge).1
unfolding program
deliveries-bridge_steps_example = deliveries-bridge_steps "b" bridge steps refl refl

deliveries_once_example :
    deliveries "a" (bridge_steps steps bridge).1 ≡ (if is_in "a" (removals steps) then 1 else 0)
unfolding program
deliveries_once_example = deliveries_once "a" bridge steps refl (omega arith)

abbrev round : Bool → Attempt
round opens = record {
  cancelled_before = false;
  stream = if opens then received (event 1 "a" ∷ []) else open_failed;
  cancelled_after = false;
  cancelled_waiting = false;
}

abbrev rounds : List Attempt
rounds = round false ∷ round false ∷ round true ∷ round false ∷ []

doubled_and_reset :
    (run_event_stream rounds bridge).1.1 ≡ backoff_min ∷ 2000000000 ∷ backoff_min ∷ 2000000000 ∷ []
unfolding program
doubled_and_reset = refl

run_event_stream-window_example :
    (run_event_stream rounds bridge).1.1 ≡ map window (streaks 0 rounds)
run_event_stream-window_example = run_event_stream-window rounds bridge
