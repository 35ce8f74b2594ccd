-- ===== src/Sse.antt =====
-- internal/worker/sse/broadcaster.go: the clients of the event stream. A client is the number in
-- its identifier "client-%d". Writing to a client is the environment: each write ends in one of
-- four ways. Closing a closed channel panics, which is `none`.
pub mod Clients
pub mod Dead
mod Tests
use claude_mnemonic_plus.Prelude.{
  ℕ, ◌+◌, ◌==◌, Bool, true, false, not, Option, none, some, List, [], ◌∷◌, ◌++◌, length,
  if◌then◌else◌,
}

-- The map's keys, the counter, and the clients whose Done is closed.
pub record Broadcaster : Type 0 where
  pub clients : List ℕ
  pub next_id : ℕ
  pub done : List ℕ

-- NewBroadcaster
abbrev pub new_broadcaster : Broadcaster
new_broadcaster = record { clients = []; next_id = 0; done = [] }

unfoldable pub has_client : ℕ → List ℕ → Bool
has_client c [] = false
has_client c (x ∷ xs) = if x == c then true else has_client c xs

-- `delete(b.clients, id)`
unfoldable pub delete_client : ℕ → List ℕ → List ℕ
delete_client c [] = []
delete_client c (x ∷ xs) = let rest = delete_client c xs in if x == c then rest else x ∷ rest

-- AddClient; the flag says whether the writer is an http.Flusher. `none` is the error.
unfoldable pub add_client : Bool → Broadcaster → Broadcaster × Option ℕ
add_client flusher b =
    let id = b.next_id + 1 in
    if flusher then (record b { clients = id ∷ b.clients; next_id = id }, some id) else (b, none)

-- `close(client.Done)`
unfoldable pub close_done : ℕ → Broadcaster → Option Broadcaster
close_done c b = if has_client c b.done then none else some (record b { done = c ∷ b.done })

-- RemoveClient
unfoldable pub remove_client : ℕ → Broadcaster → Option Broadcaster
remove_client c b = close_done c (record b { clients = delete_client c b.clients })

-- removeClientByID: a Done that is closed already stays so.
unfoldable pub remove_client_by_id : ℕ → Broadcaster → Broadcaster
remove_client_by_id c b =
    if has_client c b.clients
    then record b {
      clients = delete_client c b.clients;
      done = if has_client c b.done then b.done else c ∷ b.done;
    }
    else b

-- How a write ends: with success, an error, the timeout, or because Done was closed meanwhile.
pub data WriteOutcome : Type 0 where
  written : WriteOutcome
  write_failed : WriteOutcome
  timed_out : WriteOutcome
  disconnected : WriteOutcome

-- writeToClient: whether the client is marked as dead.
unfoldable pub write_to_client : WriteOutcome → Bool
write_to_client written = false
write_to_client write_failed = true
write_to_client timed_out = true
write_to_client disconnected = false

-- The writes of Broadcast to the clients whose Done is open, and the dead clients among them.
unfoldable pub dead_clients : (ℕ → WriteOutcome) → List ℕ → List ℕ → List ℕ
dead_clients writes done [] = []
dead_clients writes done (c ∷ cs) =
    let rest = dead_clients writes done cs in
    if has_client c done then rest else if write_to_client (writes c) then c ∷ rest else rest

-- The last loop of Broadcast.
unfoldable pub remove_all : List ℕ → Broadcaster → Broadcaster
remove_all [] b = b
remove_all (c ∷ cs) b = remove_all cs (remove_client_by_id c b)

-- Broadcast; the flag says whether the data could be marshalled.
unfoldable pub broadcast : Bool → (ℕ → WriteOutcome) → Broadcaster → Broadcaster
broadcast marshalled writes b =
    if marshalled then remove_all (dead_clients writes b.done b.clients) b else b

-- ClientCount
unfoldable pub client_count : Broadcaster → ℕ
client_count b = length b.clients
