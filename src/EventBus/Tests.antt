-- ===== src/EventBus/Tests.antt =====
-- Runs of the bus, and the theorem at one of them.
use claude_mnemonic_plus.Prelude.{◌≡◌, refl, List, [], ◌∷◌, arith}
use claude_mnemonic_plus.Module.{returned, panicked}
use claude_mnemonic_plus.EventBus.{
  Event, new_bus, subscribe, remove_subscription, unsubscribe, deliver_safe, emit, BusCall,
  subscribing, unsubscribing, BusClients, bus_call, bus_calls,
}
use claude_mnemonic_plus.EventBus.Slots.{slot_call, slot_calls, slot_emit, emit-bus_calls}

program : Unit {0}
unfolding subscribe remove_subscription unsubscribe deliver_safe emit bus_call bus_calls slot_call
    slot_calls slot_emit
program = tt

abbrev removal : Event
removal = record {
  event_type = "project_removed";
  project_id = "a";
  timestamp_unix_ms = 5;
  reason = "";
  metadata = [];
}

abbrev start : BusClients
start = record { bus = new_bus; returned_functions = [] }

-- The second of three subscriptions ends, twice; the first handler panics.
abbrev calls : List BusCall
calls =
    subscribing (λ ev. panicked "closed stream")
    ∷ subscribing (λ ev. returned)
    ∷ unsubscribing 1
    ∷ subscribing (λ ev. returned)
    ∷ unsubscribing 1
    ∷ unsubscribing 7
    ∷ []

two_left :
    emit removal (bus_calls calls start).bus ≡ (1, panicked "closed stream") ∷ (3, returned) ∷ []
unfolding program
two_left = refl

emit-bus_calls_example :
    emit removal (bus_calls calls start).bus ≡ slot_emit 1 removal (slot_calls calls [])
emit-bus_calls_example = emit-bus_calls removal calls (omega arith)
