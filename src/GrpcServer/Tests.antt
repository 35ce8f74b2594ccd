-- ===== src/GrpcServer/Tests.antt =====
-- Heartbeats and streams on concrete projects, and the theorems at them.
use claude_mnemonic_plus.Prelude.{
  ℕ, ◌≤◌, ◌≡◌, ◌≢◌, refl, String, true, false, none, some, List, [], ◌∷◌, ◌++◌, lookup, insert,
  dec_str, str_ne, Bool-cases, arith, inl, inr,
}
use claude_mnemonic_plus.Registry.{Registry}
use claude_mnemonic_plus.Dispatcher.{Dispatcher}
use claude_mnemonic_plus.Dispatcher.Tracking.{
  connect, disconnect, SessionEvent, is_tracked, track, untrack, on_project_connect,
  on_project_disconnect, session_event, connected_project_ids, session_events, connected_after,
}
use claude_mnemonic_plus.Dedup.{dedup_capacity, new_lru}
use claude_mnemonic_plus.EventBus.{Event}
use claude_mnemonic_plus.Bridge.{Bridge, SyncResponse}
use claude_mnemonic_plus.Bridge as Client
use claude_mnemonic_plus.Bridge.Delivery.{is_in, deliveries}
use claude_mnemonic_plus.GrpcServer.Sync.{
  ProjectRow, ProjectsDb, client_id_empty, server_known, is_gone, classify, reconcile,
  stale_or_none, sync_project_state, is_live,
}
use claude_mnemonic_plus.GrpcServer.Heartbeat.{call_server, heartbeat-session_events}
use claude_mnemonic_plus.GrpcServer.Events.{
  bus_event_to_proto, new_stream, on_event, send_event, receive, send_next, stream_step,
  stream_steps, StreamStep, emitted, sending, context_done, removed_ids, heard, ids_of,
}
use claude_mnemonic_plus.GrpcServer.Events.Order.{sent-stream_steps}

program : Unit {0}
unfolding dec_str Bool-cases lookup insert server_known is_gone classify reconcile stale_or_none
    sync_project_state is_live is_in is_tracked track untrack on_project_connect
    on_project_disconnect session_event connected_project_ids session_events connected_after
    bus_event_to_proto on_event send_event receive send_next stream_step stream_steps removed_ids
    heard new_lru
program = tt

-- The database has "a" as removed and "b" as live, and does not have "c".
abbrev rows : List ProjectRow
rows = ("a", some 9) ∷ ("b", none) ∷ []

abbrev db : ProjectsDb
db = record { rows_of = λ ids. some rows; stale_since = λ t. some ("old" ∷ []) }

reported :
    sync_project_state (some db) 86400001 "100-1" ("a" ∷ "b" ∷ "c" ∷ [])
    ≡ inr (
      record { removed = "a" ∷ "c" ∷ []; unknown = "old" ∷ []; server_time_unix_ms = 86400001 },
      "a" ∷ "b" ∷ "c" ∷ [],
    )
unfolding program
reported = refl

nameless : sync_project_state (some db) 0 "" [] ≡ inl client_id_empty
unfolding program
nameless = refl

named : ◌≢◌ {A = String} "100-1" ""
named = str_ne "100-1" "" refl

abbrev empty_registry : Registry ℕ
empty_registry = record { entries = []; tool_index = []; proxy_idx = none; frozen = true }

abbrev dispatcher : Dispatcher ℕ
dispatcher = record { reg = empty_registry; draining = false; tracked = [] }

abbrev sessions : List SessionEvent
sessions = connect "b" ∷ connect "a" ∷ disconnect "b" ∷ []

abbrev bridge : Bridge ℕ
bridge = record {
  client_id = "100-1";
  token = "";
  server_url = "";
  reg = empty_registry;
  tracker = some (connected_project_ids (session_events sessions dispatcher));
  dedup = new_lru dedup_capacity;
}

heartbeat-session_events_example :
    1 ≤ deliveries "a" (Client.sync_project_state (call_server db 7) bridge).1
unfolding program
heartbeat-session_events_example =
    heartbeat-session_events "a" db 7 rows bridge dispatcher sessions refl refl named (omega arith)
      refl refl refl (str_ne "a" "" refl)

abbrev event : String → String → Event
event kind p = record {
  event_type = kind;
  project_id = p;
  timestamp_unix_ms = 0;
  reason = "";
  metadata = [];
}

-- The second Send fails, and the last event waits in the channel of a stream that has ended.
abbrev steps : List StreamStep
steps =
    emitted (event "project_removed" "a")
    ∷ emitted (event "project_renamed" "b")
    ∷ sending 41 true
    ∷ sending 42 true
    ∷ emitted (event "project_removed" "c")
    ∷ emitted (event "project_removed" "d")
    ∷ sending 50 false
    ∷ emitted (event "project_removed" "e")
    ∷ context_done
    ∷ []

one_sent :
    (ids_of (stream_steps steps new_stream).sent ≡ "a" ∷ [])
    × (ids_of (stream_steps steps new_stream).unsent ≡ "c" ∷ [])
    × (removed_ids (stream_steps steps new_stream).waiting ≡ "d" ∷ [])
unfolding program
one_sent = (refl, refl, refl)

sent-stream_steps_example :
    (ids_of (stream_steps steps new_stream).sent
        ++ (ids_of (stream_steps steps new_stream).unsent
            ++ removed_ids (stream_steps steps new_stream).waiting)
      ≡ removed_ids (heard steps new_stream))
    × ((stream_steps steps new_stream).is_open ≡ true → (stream_steps steps new_stream).unsent ≡ [])
sent-stream_steps_example =
    sent-stream_steps steps
      (omega arith, (omega arith, (omega arith, (omega arith, (omega arith, tt)))))
