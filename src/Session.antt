-- ===== src/Session.antt =====
-- internal/worker/session/manager.go: the active sessions and their message queues. Sessions are
-- shared by pointer, so they stand in a heap, and the manager's map holds their addresses. Each
-- function here is what runs under one lock; the operations compose them the way the source does.
-- Session ids, prompt numbers and times (in minutes) are natural numbers. The database is a
-- parameter.
pub mod Ops
pub mod Invariant
pub mod Calls
pub mod Queue
pub mod Cleanup
pub mod Race
mod Tests
use claude_mnemonic_plus.Prelude.{
  ℕ, ◌+◌, ◌-◌, String, Bool, true, false, Option, none, some, List, [], ◌∷◌, ◌++◌, ite, length,
  get_elem?, set, lookup, insert, delete, dec_str, ℕ_discrete, ltb, ◌==◌, if◌then◌else◌, ◌||◌,
}

-- ObservationData. A tool's input and response, of type interface{}, are texts.
pub record ObservationData : Type 0 where
  pub tool_input : String
  pub tool_response : String
  pub tool_name : String
  pub cwd : String
  pub user_prompt : String
  pub prompt_number : ℕ

-- SummarizeData
pub record SummarizeData : Type 0 where
  pub last_user_message : String
  pub last_assistant_message : String

-- PendingMessage, by its Type, with the data that this type carries.
pub data PendingMessage : Type 0 where
  observation : ObservationData → PendingMessage
  summarize : SummarizeData → PendingMessage

-- ActiveSession. `notified` says whether the channel `notify`, of capacity 1, is full; `cancelled`
-- whether its context is.
pub record ActiveSession : Type 0 where
  pub session_db_id : ℕ
  pub claude_session_id : String
  pub sdk_session_id : String
  pub project : String
  pub user_prompt : String
  pub last_prompt_number : ℕ
  pub cumulative_input_tokens : ℕ
  pub cumulative_output_tokens : ℕ
  pub start_time : ℕ
  pub pending_messages : List PendingMessage
  pub notified : Bool
  pub cancelled : Bool
  pub generator_active : Bool

-- A row of the session table.
pub record DbSession : Type 0 where
  pub claude_session_id : String
  pub sdk_session_id : String
  pub project : String
  pub user_prompt : Option String

pub data DbResult : Type 0 where
  db_error : String → DbResult
  no_session : DbResult
  db_session : DbSession → DbResult

-- gorm.SessionStore
pub record SessionStore : Type 0 where
  pub get_session_by_id : ℕ → DbResult
  pub get_prompt_counter : ℕ → ℕ

-- Manager, with the heap of its sessions. `created` and `deleted` are the calls of the callbacks,
-- the latest first; `process_notified` says whether ProcessNotify is full.
pub record Manager : Type 0 where
  pub heap : List ActiveSession
  pub sessions : List (ℕ × ℕ)
  pub process_notified : Bool
  pub cleanup_stopped : Bool
  pub created : List ℕ
  pub deleted : List ℕ

-- NewManager
unfoldable pub new_manager : Manager
new_manager = record {
  heap = [];
  sessions = [];
  process_notified = false;
  cleanup_stopped = false;
  created = [];
  deleted = [];
}

-- `m.sessions[id]`
abbrev pub find_session : Manager → ℕ → Option ℕ
find_session m id = lookup ℕ_discrete id m.sessions

-- `session.f = …` through a pointer
unfoldable pub update_session : (ActiveSession → ActiveSession) → Manager → ℕ → Manager
update_session f m ref = elim (get_elem? m.heap ref) [
  | none ↦ m
  | some s ↦ record m { heap = set m.heap ref (f s) }
]

-- The continuation branch of InitializeSession.
unfoldable pub continue_session : String → ℕ → ActiveSession → ActiveSession
continue_session prompt number s =
    ite (dec_str prompt "") s (record s { user_prompt = prompt; last_prompt_number = number })

-- The session that InitializeSession builds from a row.
unfoldable pub session_from_row : SessionStore → ℕ → ℕ → String → ℕ → DbSession → ActiveSession
session_from_row store now id prompt number row = record {
  session_db_id = id;
  claude_session_id = row.claude_session_id;
  sdk_session_id = row.sdk_session_id;
  project = row.project;
  user_prompt =
      ite (dec_str prompt "") (elim row.user_prompt [ none ↦ prompt | some p ↦ p ]) prompt;
  last_prompt_number = if number == 0 then store.get_prompt_counter id else number;
  cumulative_input_tokens = 0;
  cumulative_output_tokens = 0;
  start_time = now;
  pending_messages = [];
  notified = false;
  cancelled = false;
  generator_active = false;
}

-- The last critical section of InitializeSession: the double check, then the insertion.
unfoldable pub publish_session : Manager → ℕ → ActiveSession → Manager × ℕ
publish_session m id s = elim (find_session m id) [
  | some existing ↦ (m, existing)
  | none ↦ (
    record m {
      heap = m.heap ++ s ∷ [];
      sessions = insert ℕ_discrete id (length m.heap) m.sessions;
      created = id ∷ m.created;
    },
    length m.heap,
  )
]

-- What InitializeSession returns: an error, a nil session, or a pointer.
pub data InitResult : Type 0 where
  init_error : String → InitResult
  init_absent : InitResult
  init_ok : ℕ → InitResult

-- InitializeSession behind its first critical section.
unfoldable pub load_session : SessionStore → ℕ → Manager → ℕ → String → ℕ → Manager × InitResult
load_session store now m id prompt number = elim (store.get_session_by_id id) [
  | db_error e ↦ (m, init_error e)
  | no_session ↦ (m, init_absent)
  | db_session row ↦
      let (m', ref) = publish_session m id (session_from_row store now id prompt number row) in
      (m', init_ok ref)
]

-- InitializeSession
unfoldable pub initialize_session :
    SessionStore → ℕ → Manager → ℕ → String → ℕ → Manager × InitResult
initialize_session store now m id prompt number = elim (find_session m id) [
  | some ref ↦ (update_session (continue_session prompt number) m ref, init_ok ref)
  | none ↦ load_session store now m id prompt number
]
