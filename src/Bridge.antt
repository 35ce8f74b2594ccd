-- ===== src/Bridge.antt =====
-- internal/handlers/serverevents/bridge.go: how the daemon learns that the server has removed a
-- project. The gRPC client is the environment: what the stream sends and what SyncProjectState
-- answers are inputs. Each fan-out is recorded with what every module's callback did.
pub mod Announce
pub mod Delivery
pub mod Backoff
mod Tests
use claude_mnemonic_plus.Prelude.{
  ℕ, ◌*◌, ◌==◌, String, Bool, true, false, Option, none, some, List, [], ◌∷◌, ◌++◌, map, ite, ltb,
  dec_str, if◌then◌else◌,
}
use Prim.Native.String.{◌++◌ as append_str}
use claude_mnemonic_plus.Module.{Outcome}
use claude_mnemonic_plus.Registry.{Registry, removal_aware_modules}
use claude_mnemonic_plus.Dedup.{Lru, DedupKey, dedup_key, dedup_capacity, new_lru, mark}

-- time.Duration counts nanoseconds.
abbrev pub backoff_min : ℕ
backoff_min = 1000000000

abbrev pub backoff_max : ℕ
backoff_max = 60 * 1000000000

-- PROJECT_EVENT_TYPE_REMOVED of the generated code.
abbrev pub event_type_removed : ℕ
event_type_removed = 1

-- The fields of pb.ProjectEvent that the bridge reads; the identifier is the number it spells.
pub record ProjectEvent : Type 0 where
  pub event_id : ℕ
  pub event_type : ℕ
  pub project_id : String

-- pb.SyncProjectStateResponse
pub record SyncResponse : Type 0 where
  pub removed : List String
  pub unknown : List String
  pub server_time_unix_ms : ℕ

-- What opening a stream leads to: an error, or the events that Recv returns before it fails.
pub data StreamOutcome : Type 0 where
  open_failed : StreamOutcome
  received : List ProjectEvent → StreamOutcome

-- One round of the loop of runEventStream, with ctx.Err() at its three tests.
pub record Attempt : Type 0 where
  pub cancelled_before : Bool
  pub stream : StreamOutcome
  pub cancelled_after : Bool
  pub cancelled_waiting : Bool

-- A fan-out: the project, and what OnProjectRemoved of each module did, in order.
abbrev pub FanOut : Type 0
FanOut = String × List Outcome

-- NewBridge's choice of the server's address; `env` is os.Getenv.
unfoldable pub server_url : (String → String) → String
server_url env = ite (dec_str (env "ENGRAM_URL") "") (env "ENGRAM_SERVER_URL") (env "ENGRAM_URL")

-- The part of Bridge that its operations read and write. `tracker` is what ConnectedProjectIDs
-- answers, `none` for a nil tracker.
pub record Bridge (Bytes : Type 0) : Type 0 where
  pub client_id : String
  pub token : String
  pub server_url : String
  pub reg : Registry Bytes
  pub tracker : Option (List String)
  pub dedup : Lru

abbrev pub removed_key : String → DedupKey
removed_key p = dedup_key "removed" p

-- outgoingContext: the metadata that a call carries.
unfoldable pub outgoing_context : String → List (String × String)
outgoing_context token =
    ite (dec_str token "") [] (("authorization", append_str "Bearer " token) ∷ [])

module _ {Bytes : Type 0} where
  -- NewBridge
  unfoldable pub new_bridge :
      String → (String → String) → Registry Bytes → Option (List String) → Bridge Bytes
  new_bridge client_id env reg tracker = record {
    client_id = client_id;
    token = env "ENGRAM_TOKEN";
    server_url = server_url env;
    reg = reg;
    tracker = tracker;
    dedup = new_lru dedup_capacity;
  }

  -- localProjectIDs
  unfoldable pub local_project_ids : Bridge Bytes → List String
  local_project_ids b = elim (b.tracker) [ none ↦ [] | some ids ↦ ids ]

  -- fanOutRemoval: a handler that panics is recovered, and the loop goes on.
  unfoldable pub fan_out_removal : String → Registry Bytes → FanOut
  fan_out_removal p reg = (p, map (λ h. h.on_project_removed p) (removal_aware_modules reg))

  -- handleEvent
  unfoldable pub handle_event : ProjectEvent → Bridge Bytes → Bridge Bytes × List FanOut
  handle_event ev b =
      if ev.event_type == event_type_removed
      then ite (dec_str (ev.project_id) "") (b, [])
          (let (dedup, seen) = mark (removed_key ev.project_id) b.dedup in
            (
              record b { dedup = dedup },
              if seen then [] else fan_out_removal ev.project_id b.reg ∷ [],
            ))
      else (b, [])

  -- The events of a stream, until Recv fails.
  unfoldable pub handle_events : List ProjectEvent → Bridge Bytes → Bridge Bytes × List FanOut
  handle_events [] b = (b, [])
  handle_events (ev ∷ evs) b =
      let (b1, here) = handle_event ev b in
      let (b2, rest) = handle_events evs b1 in (b2, here ++ rest)

  -- consumeStream: whether the stream was opened, and what its events led to.
  unfoldable pub consume_stream : StreamOutcome → Bridge Bytes → Bool × (Bridge Bytes × List FanOut)
  consume_stream open_failed b = (false, (b, []))
  consume_stream (received evs) b = (true, handle_events evs b)

  -- The body of the loop of syncProjectState.
  unfoldable pub handle_removed : String → Bridge Bytes → Bridge Bytes × List FanOut
  handle_removed p b =
      ite (dec_str p "") (b, [])
        (let (dedup, seen) = mark (removed_key p) b.dedup in
          (record b { dedup = dedup }, if seen then [] else fan_out_removal p b.reg ∷ []))

  unfoldable pub handle_removed_all : List String → Bridge Bytes → Bridge Bytes × List FanOut
  handle_removed_all [] b = (b, [])
  handle_removed_all (p ∷ ps) b =
      let (b1, here) = handle_removed p b in
      let (b2, rest) = handle_removed_all ps b1 in (b2, here ++ rest)

  -- syncProjectState: `server` answers the client's identifier and the local projects, or fails.
  unfoldable pub sync_project_state :
      (String → List String → Option SyncResponse) → Bridge Bytes → Bridge Bytes × List FanOut
  sync_project_state server b = elim (server b.client_id (local_project_ids b)) [
    | none ↦ (b, [])
    | some resp ↦ handle_removed_all resp.removed b
  ]

-- The wait after the next failure: doubled, and capped at backoffMax.
unfoldable pub next_backoff : ℕ → ℕ
next_backoff backoff =
    let doubled = backoff * 2 in if ltb backoff_max doubled then backoff_max else doubled

module _ {Bytes : Type 0} where
  -- The loop of runEventStream from a value of `backoff`, over the rounds that the environment
  -- grants it: the bridge, the fan-outs, and the waits that it starts.
  unfoldable pub stream_loop :
      ℕ → List Attempt → Bridge Bytes → Bridge Bytes × (List FanOut × List ℕ)
  stream_loop backoff [] b = (b, ([], []))
  stream_loop backoff (a ∷ rounds) b =
      let (opened, (b1, here)) = consume_stream a.stream b in
      let wait = if opened then backoff_min else backoff in
      let (b2, (rest, waits)) = stream_loop (next_backoff wait) rounds b1 in
      if a.cancelled_before
      then (b, ([], []))
      else if a.cancelled_after
      then (b1, (here, []))
      else if a.cancelled_waiting
      then (b1, (here, wait ∷ []))
      else (b2, (here ++ rest, wait ∷ waits))

  -- runEventStream
  unfoldable pub run_event_stream :
      List Attempt → Bridge Bytes → Bridge Bytes × (List FanOut × List ℕ)
  run_event_stream rounds b = stream_loop backoff_min rounds b
