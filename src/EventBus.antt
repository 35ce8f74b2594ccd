-- ===== src/EventBus.antt =====
-- internal/worker/projectevents/bus.go: the bus of project events. A handler is a function from an
-- event to what it does; handlers that call the bus themselves are not modelled.
pub mod Slots
mod Tests
use claude_mnemonic_plus.Prelude.{
  ℕ, ◌+◌, ◌%◌, ◌==◌, String, Bool, true, false, Option, none, some, List, [], ◌∷◌, ◌++◌, map,
  get_elem?, set, if◌then◌else◌,
}
use claude_mnemonic_plus.Module.{Outcome}

abbrev pub event_type_removed : String
event_type_removed = "project_removed"

pub record Event : Type 0 where
  pub event_type : String
  pub project_id : String
  pub timestamp_unix_ms : ℕ
  pub reason : String
  pub metadata : List (String × String)

abbrev pub Handler : Type 0
Handler = Event → Outcome

pub record Subscription : Type 0 where
  pub id : ℕ
  pub handler : Handler

pub record Bus : Type 0 where
  pub subs : List Subscription
  pub seq : ℕ

-- What the function that Subscribe returns has captured: the identifier, and whether its sync.Once
-- has fired.
pub record Unsubscriber : Type 0 where
  pub id : ℕ
  pub fired : Bool

abbrev pub new_bus : Bus
new_bus = record { subs = []; seq = 0 }

-- `b.seq.Add(1)` on a 64-bit counter.
abbrev pub next_seq : ℕ → ℕ
next_seq n = (n + 1) % 18446744073709551616

-- Subscribe
unfoldable pub subscribe : Handler → Bus → Bus × Unsubscriber
subscribe handler b =
    let id = next_seq b.seq in
    (
      record { subs = b.subs ++ record { id = id; handler = handler } ∷ []; seq = id },
      record { id = id; fired = false },
    )

-- The loop of the returned function: the first subscription with the identifier is cut out.
unfoldable pub remove_subscription : ℕ → List Subscription → List Subscription
remove_subscription id [] = []
remove_subscription id (s ∷ ss) =
    let rest = remove_subscription id ss in if s.id == id then ss else s ∷ rest

-- The function that Subscribe returns.
unfoldable pub unsubscribe : Unsubscriber → Bus → Bus × Unsubscriber
unsubscribe u b =
    if u.fired
    then (b, u)
    else (record b { subs = remove_subscription u.id b.subs }, record u { fired = true })

-- deliverSafe: a panic of the handler is recovered.
unfoldable pub deliver_safe : Event → Subscription → ℕ × Outcome
deliver_safe ev s = (s.id, s.handler ev)

-- Emit: what every subscriber did, in order.
unfoldable pub emit : Event → Bus → List (ℕ × Outcome)
emit ev b = map (deliver_safe ev) b.subs

-- The calls that clients make: a subscription, or a call of the function that the n-th
-- subscription returned, n counted from 0.
pub data BusCall : Type 0 where
  subscribing : Handler → BusCall
  unsubscribing : ℕ → BusCall

-- The bus with the functions that it has returned.
pub record BusClients : Type 0 where
  pub bus : Bus
  pub returned_functions : List Unsubscriber

unfoldable pub bus_call : BusCall → BusClients → BusClients
bus_call (subscribing h) c =
    let (b, u) = subscribe h c.bus in
    record { bus = b; returned_functions = c.returned_functions ++ u ∷ [] }
bus_call (unsubscribing n) c = elim (get_elem? c.returned_functions n) [
  | none ↦ c
  | some u ↦
      let (b, u2) = unsubscribe u c.bus in
      record { bus = b; returned_functions = set c.returned_functions n u2 }
]

unfoldable pub bus_calls : List BusCall → BusClients → BusClients
bus_calls [] c = c
bus_calls (x ∷ xs) c = bus_calls xs (bus_call x c)
