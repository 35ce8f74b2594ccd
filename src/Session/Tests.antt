-- ===== src/Session/Tests.antt =====
-- Runs of the session manager, and the theorems at them.
use claude_mnemonic_plus.Prelude.{
  ℕ, ◌≢◌, ◌≡◌, ◌↔◌, ◌⊎◌, refl, true, false, none, some, [], ◌∷◌, ◌++◌, get_elem?, lookup, insert,
  delete, dec_str, ℕ_discrete,
}
use claude_mnemonic_plus.Session.{
  PendingMessage, observation, summarize, ActiveSession, SessionStore, db_session, Manager,
  new_manager, find_session, update_session, continue_session, session_from_row, publish_session,
  load_session, initialize_session,
}
use claude_mnemonic_plus.Session.Ops.{
  queue_of, stop_cleanup, get_all_sessions, enqueue_message, append_message, queue_message,
  clear_queue, drain_messages, cancel_session, delete_session, delete_sessions, is_stale, stale_ids,
  cleanup_stale_sessions, shutdown_all, get_active_session_count, total_depth,
  get_total_queue_depth, any_processing, is_any_session_processing,
}
use claude_mnemonic_plus.Session.Invariant.{IsValid}
use claude_mnemonic_plus.Session.Calls.{
  initialize, queue, delete as delete_call, call, run, run-IsValid,
}
use claude_mnemonic_plus.Session.Queue.{pending, queue_all, drain_messages-queue_all}
use claude_mnemonic_plus.Session.Cleanup.{IsStale, find_session-cleanup}
use claude_mnemonic_plus.Session.Race.{publish_all, queue_race_loses}

program : Unit {0}
unfolding stop_cleanup get_all_sessions new_manager update_session continue_session session_from_row
    publish_session load_session initialize_session enqueue_message append_message queue_message
    clear_queue drain_messages cancel_session delete_session delete_sessions is_stale stale_ids
    cleanup_stale_sessions shutdown_all get_active_session_count total_depth get_total_queue_depth
    any_processing is_any_session_processing queue_all publish_all call run lookup insert delete
    dec_str ℕ_discrete
program = tt

abbrev store : SessionStore
store = record {
  get_session_by_id = λ id. db_session (record {
    claude_session_id = "c";
    sdk_session_id = "";
    project = "p";
    user_prompt = some "hello";
  });
  get_prompt_counter = λ id. 4;
}

abbrev edit : PendingMessage
edit = observation (record {
  tool_input = "main.go";
  tool_response = "ok";
  tool_name = "Edit";
  cwd = "/p";
  user_prompt = "hello";
  prompt_number = 4;
})

abbrev ending : PendingMessage
ending = summarize (record { last_user_message = "a"; last_assistant_message = "b" })

abbrev m : Manager
m = run store new_manager (initialize 0 5 "" 0 ∷ initialize 1 6 "hi" 1 ∷ queue 2 6 edit ∷ [])

abbrev s5 : ActiveSession
s5 = record {
  session_db_id = 5;
  claude_session_id = "c";
  sdk_session_id = "";
  project = "p";
  user_prompt = "hello";
  last_prompt_number = 4;
  cumulative_input_tokens = 0;
  cumulative_output_tokens = 0;
  start_time = 0;
  pending_messages = [];
  notified = false;
  cancelled = false;
  generator_active = false;
}

m-IsValid : IsValid m
m-IsValid = run-IsValid store (initialize 0 5 "" 0 ∷ initialize 1 6 "hi" 1 ∷ queue 2 6 edit ∷ [])

first_session :
    (find_session m 5 ≡ some 0) × (get_elem? m.heap 0 ≡ some s5) × (find_session m 6 ≡ some 1)
unfolding program
first_session = (refl, refl, refl)

queries :
    (get_all_sessions m ≡ 0 ∷ 1 ∷ [])
    × (get_active_session_count m ≡ 2)
    × (get_total_queue_depth m ≡ 1)
    × (is_any_session_processing m ≡ true)
    × (cleanup_stale_sessions 31 m ≡ delete_session m 5)
    × ((shutdown_all m).deleted ≡ 6 ∷ 5 ∷ [])
unfolding program
queries = (refl, refl, refl, refl, refl, refl)

run-IsValid_example : IsValid (run store new_manager (initialize 0 5 "" 0 ∷ delete_call 5 ∷ []))
run-IsValid_example = run-IsValid store (initialize 0 5 "" 0 ∷ delete_call 5 ∷ [])

drain_messages-queue_all_example :
    ((drain_messages (queue_all store 3 m 6 (ending ∷ [])) 6).1 ≡ pending m 6 ++ ending ∷ [])
    × ((drain_messages (drain_messages (queue_all store 3 m 6 (ending ∷ [])) 6).0 6).1 ≡ [])
unfolding program
drain_messages-queue_all_example =
    drain_messages-queue_all store 3 6 (ending ∷ []) m {ref = 1} m-IsValid refl

find_session-cleanup_example :
    ((find_session (cleanup_stale_sessions 31 m) 5 ≡ none) ↔ IsStale 31 s5)
    × ((find_session (cleanup_stale_sessions 31 m) 5 ≡ none)
        ⊎ (find_session (cleanup_stale_sessions 31 m) 5 ≡ some 0))
unfolding program
find_session-cleanup_example = find_session-cleanup 31 m 5 0 s5 m-IsValid refl refl

queue_race_loses_example :
    (queue_of (get_elem? (append_message (delete_session m 5) 0 edit).heap 0) ≡ edit ∷ [])
    × ((j : ℕ) → find_session (append_message (delete_session m 5) 0 edit) j ≢ some 0)
unfolding program
queue_race_loses_example = queue_race_loses m 5 0 s5 edit m-IsValid refl refl
