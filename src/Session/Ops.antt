-- ===== src/Session/Ops.antt =====
-- Queueing, draining, deletion, cleanup and the queries of the session manager.
use claude_mnemonic_plus.Prelude.{
  ℕ, ◌+◌, ◌-◌, String, Bool, true, false, Option, none, some, List, [], ◌∷◌, ◌++◌, length,
  get_elem?, map, delete, ℕ_discrete, ltb, if◌then◌else◌,
}
use claude_mnemonic_plus.Session.{
  PendingMessage, ActiveSession, SessionStore, Manager, find_session, update_session, InitResult,
  init_error, init_absent, init_ok, initialize_session,
}

-- SessionTimeout, in minutes
abbrev pub session_timeout : ℕ
session_timeout = 30

-- The append to the queue and the two non-blocking sends of QueueObservation and QueueSummarize.
unfoldable pub enqueue_message : PendingMessage → ActiveSession → ActiveSession
enqueue_message msg s = record s {
  pending_messages = s.pending_messages ++ msg ∷ [];
  notified = true;
}

unfoldable pub append_message : Manager → ℕ → PendingMessage → Manager
append_message m ref msg = record (update_session (enqueue_message msg) m ref) {
  process_notified = true;
}

-- The error that QueueObservation and QueueSummarize return.
abbrev pub queue_outcome : PendingMessage → Manager × InitResult → Manager × Option String
queue_outcome msg (m, init_error e) = (m, some e)
queue_outcome msg (m, init_absent) = (m, none)
queue_outcome msg (m, init_ok ref) = (append_message m ref msg, none)

-- QueueObservation and QueueSummarize, which differ in the message alone.
unfoldable pub queue_message :
    SessionStore → ℕ → Manager → ℕ → PendingMessage → Manager × Option String
queue_message store now m id msg = elim (find_session m id) [
  | some ref ↦ (append_message m ref msg, none)
  | none ↦ queue_outcome msg (initialize_session store now m id "" 0)
]

-- The copy that DrainMessages returns.
abbrev pub queue_of : Option ActiveSession → List PendingMessage
queue_of none = []
queue_of (some s) = s.pending_messages

unfoldable pub clear_queue : ActiveSession → ActiveSession
clear_queue s = record s { pending_messages = [] }

-- DrainMessages
unfoldable pub drain_messages : Manager → ℕ → Manager × List PendingMessage
drain_messages m id = elim (find_session m id) [
  | none ↦ (m, [])
  | some ref ↦ (update_session clear_queue m ref, queue_of (get_elem? m.heap ref))
]

unfoldable pub cancel_session : ActiveSession → ActiveSession
cancel_session s = record s { cancelled = true }

-- DeleteSession
unfoldable pub delete_session : Manager → ℕ → Manager
delete_session m id = elim (find_session m id) [
  | none ↦ m
  | some ref ↦
      let m' = record m { sessions = delete ℕ_discrete id m.sessions } in
      record (update_session cancel_session m' ref) { deleted = id ∷ m.deleted }
]

unfoldable pub delete_sessions : Manager → List ℕ → Manager
delete_sessions m [] = m
delete_sessions m (id ∷ ids) = delete_sessions (delete_session m id) ids

abbrev pub is_empty : List PendingMessage → Bool
is_empty [] = true
is_empty (x ∷ xs) = false

-- The test of cleanupStaleSessions for one session. A start later than `now` gives the age 0, which
-- is not above the timeout, like the negative age of the source.
unfoldable pub is_stale : ℕ → ActiveSession → Bool
is_stale now s =
    if is_empty s.pending_messages
    then (if s.generator_active then false else ltb session_timeout (now - s.start_time))
    else false

abbrev pub stale_ref : ℕ → Option ActiveSession → Bool
stale_ref now none = false
stale_ref now (some s) = is_stale now s

-- The first loop of cleanupStaleSessions.
unfoldable pub stale_ids : ℕ → List ActiveSession → List (ℕ × ℕ) → List ℕ
stale_ids now heap [] = []
stale_ids now heap ((id, ref) ∷ m) =
    let rest = stale_ids now heap m in
    if stale_ref now (get_elem? heap ref) then id ∷ rest else rest

-- cleanupStaleSessions
unfoldable pub cleanup_stale_sessions : ℕ → Manager → Manager
cleanup_stale_sessions now m = delete_sessions m (stale_ids now m.heap m.sessions)

-- `m.cancel()`, which ends the cleanup loop
unfoldable pub stop_cleanup : Manager → Manager
stop_cleanup m = record m { cleanup_stopped = true }

-- ShutdownAll
unfoldable pub shutdown_all : Manager → Manager
shutdown_all m = delete_sessions (stop_cleanup m) (map (λ e. e.0) m.sessions)

-- GetAllSessions
unfoldable pub get_all_sessions : Manager → List ℕ
get_all_sessions m = map (λ e. e.1) m.sessions

-- GetActiveSessionCount
unfoldable pub get_active_session_count : Manager → ℕ
get_active_session_count m = length m.sessions

-- The loop of GetTotalQueueDepth.
unfoldable pub total_depth : List ActiveSession → List (ℕ × ℕ) → ℕ
total_depth heap [] = 0
total_depth heap ((id, ref) ∷ m) = length (queue_of (get_elem? heap ref)) + total_depth heap m

-- GetTotalQueueDepth
unfoldable pub get_total_queue_depth : Manager → ℕ
get_total_queue_depth m = total_depth m.heap m.sessions

abbrev pub is_processing : Option ActiveSession → Bool
is_processing none = false
is_processing (some s) = if is_empty s.pending_messages then s.generator_active else true

-- The loop of IsAnySessionProcessing.
unfoldable pub any_processing : List ActiveSession → List (ℕ × ℕ) → Bool
any_processing heap [] = false
any_processing heap ((id, ref) ∷ m) =
    let rest = any_processing heap m in if is_processing (get_elem? heap ref) then true else rest

-- IsAnySessionProcessing
unfoldable pub is_any_session_processing : Manager → Bool
is_any_session_processing m = any_processing m.heap m.sessions
