-- ===== src/GrpcServer/Events.antt =====
-- ProjectEvents of internal/grpcserver/project_events.go: the channel between the bus and a
-- client's stream, of a server that has a bus and for a request without since_event_id.
pub mod Order
use claude_mnemonic_plus.Prelude.{
  ℕ, zero, suc, ◌<◌, String, Option, none, some, List, [], ◌∷◌, ◌++◌, map, ite, ltb, length,
  dec_str, Bool, true, false, ◌&&◌, if◌then◌else◌,
}
use claude_mnemonic_plus.EventBus as Bus
use claude_mnemonic_plus.EventBus.{Event}
use claude_mnemonic_plus.Bridge.{ProjectEvent, event_type_removed}

-- busEventToProto, given the value of globalEventSeq, which all streams of the process share;
-- `none` is its error.
unfoldable pub bus_event_to_proto : ℕ → Event → Option ProjectEvent
bus_event_to_proto seq ev =
    ite (dec_str (ev.event_type) Bus.event_type_removed)
      (some (record {
        event_id = Bus.next_seq seq;
        event_type = event_type_removed;
        project_id = ev.project_id;
      }))
      none

abbrev pub event_capacity : ℕ
event_capacity = 64

-- A client's stream: what its channel holds, what was sent to the client, the event whose Send
-- failed, and whether ProjectEvents has not returned.
pub record EventStream : Type 0 where
  pub waiting : List Event
  pub sent : List ProjectEvent
  pub unsent : List ProjectEvent
  pub is_open : Bool

-- The stream that ProjectEvents begins with.
abbrev pub new_stream : EventStream
new_stream = record { waiting = []; sent = []; unsent = []; is_open = true }

-- The callback that is subscribed to the bus while ProjectEvents runs: a full channel drops the
-- event.
unfoldable pub on_event : Event → EventStream → EventStream
on_event ev s =
    if s.is_open && ltb (length s.waiting) event_capacity
    then record s { waiting = s.waiting ++ ev ∷ [] }
    else s

-- What Send does with an event: an error of Send ends ProjectEvents.
unfoldable pub send_event : Bool → ProjectEvent → EventStream → EventStream
send_event true e s = record s { sent = s.sent ++ e ∷ [] }
send_event false e s = record s { unsent = s.unsent ++ e ∷ []; is_open = false }

-- An event that is received from the channel, given the counter's value and whether Send succeeds:
-- one that cannot be converted is skipped.
unfoldable pub receive : ℕ → Bool → List Event → EventStream → EventStream
receive seq ok [] s = s
receive seq ok (ev ∷ rest) s =
    let received : EventStream = record s { waiting = rest } in
    elim (bus_event_to_proto seq ev) [ none ↦ received | some e ↦ send_event ok e received ]

-- A round of the loop of ProjectEvents, which ends when it returns.
unfoldable pub send_next : ℕ → Bool → EventStream → EventStream
send_next seq ok s = if s.is_open then receive seq ok s.waiting s else s

-- An emission of the bus, a round of the loop, and the end of the stream's context.
pub data StreamStep : Type 0 where
  emitted : Event → StreamStep
  sending : ℕ → Bool → StreamStep
  context_done : StreamStep

unfoldable pub stream_step : StreamStep → EventStream → EventStream
stream_step (emitted ev) s = on_event ev s
stream_step (sending seq ok) s = send_next seq ok s
stream_step context_done s = record s { is_open = false }

unfoldable pub stream_steps : List StreamStep → EventStream → EventStream
stream_steps [] s = s
stream_steps (x ∷ xs) s = stream_steps xs (stream_step x s)

-- The removed projects among events of the bus.
unfoldable pub removed_ids : List Event → List String
removed_ids [] = []
removed_ids (ev ∷ evs) =
    let rest = removed_ids evs in
    ite (dec_str (ev.event_type) Bus.event_type_removed) (ev.project_id ∷ rest) rest

-- The events that the bus emits before ProjectEvents returns.
unfoldable pub heard : List StreamStep → EventStream → List Event
heard [] s = []
heard (emitted ev ∷ xs) s =
    let rest = heard xs (on_event ev s) in if s.is_open then ev ∷ rest else rest
heard (sending seq ok ∷ xs) s = heard xs (send_next seq ok s)
heard (context_done ∷ xs) s = heard xs (record s { is_open = false })

-- No emission meets a full channel that holds n events before the steps.
abbrev pub NeverFull : ℕ → List StreamStep → Type 0
NeverFull n [] = Unit
NeverFull n (emitted ev ∷ xs) = (n < event_capacity) × NeverFull (suc n) xs
NeverFull zero (sending seq ok ∷ xs) = NeverFull zero xs
NeverFull (suc n) (sending seq ok ∷ xs) = NeverFull n xs
NeverFull n (context_done ∷ xs) = Unit

abbrev pub ids_of : List ProjectEvent → List String
ids_of es = map (λ e. e.project_id) es
