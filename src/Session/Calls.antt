-- ===== src/Session/Calls.antt =====
-- The operations of internal/worker/session/manager.go, and sequences of them.
use claude_mnemonic_plus.Prelude.{
  ℕ, ◌≡◌, refl, inl, inr, String, List, [], ◌∷◌, map, arith, Option-cases,
}
use claude_mnemonic_plus.Session.{
  PendingMessage, SessionStore, Manager, new_manager, find_session, continue_session,
  session_from_row, load_session, initialize_session, InitResult, init_error, init_absent, init_ok,
  DbResult, db_error, no_session, db_session,
}
use claude_mnemonic_plus.Session.Ops.{
  enqueue_message, append_message, queue_outcome, queue_message, clear_queue, drain_messages,
  delete_session, delete_sessions, cleanup_stale_sessions, shutdown_all, stale_ids, stop_cleanup,
}
use claude_mnemonic_plus.Session.Invariant.{
  IsValid, new_manager-IsValid, update_session-IsValid, publish_session-IsValid,
  delete_session-IsValid,
}

module _ (store : SessionStore) (now : ℕ) (m : Manager) (v : IsValid m) where
  load_session-IsValid :
      (id : ℕ) (prompt : String) (number : ℕ)
      → IsValid (load_session store now m id prompt number).0
  unfolding load_session
  load_session-IsValid id prompt number = go (store.get_session_by_id id) refl
    where
      go :
          (r : DbResult)
          → store.get_session_by_id id ≡ r
          → IsValid (load_session store now m id prompt number).0
      go (db_error e) h = rw (h, load_session) v
      go no_session h = rw (h, load_session) v
      go (db_session row) h =
          rw (h, load_session)
            (unfold session_from_row in
              publish_session-IsValid m v id (session_from_row store now id prompt number row) refl
                refl)

  pub initialize_session-IsValid :
      (id : ℕ) (prompt : String) (number : ℕ)
      → IsValid (initialize_session store now m id prompt number).0
  unfolding initialize_session continue_session
  initialize_session-IsValid id prompt number = elim (Option-cases (find_session m id)) [
    | inl new ↦ rw (new, initialize_session) (load_session-IsValid id prompt number)
    | inr (ref, active) ↦
        rw (active, initialize_session)
          (update_session-IsValid m v (continue_session prompt number) ref (λ s. ground arith)
            (λ s. ground arith))
  ]

append_message-IsValid :
    (m : Manager)
    → IsValid m
    → (ref : ℕ) (msg : PendingMessage) → IsValid (append_message m ref msg)
unfolding append_message enqueue_message
append_message-IsValid m v ref msg =
    let u = update_session-IsValid m v (enqueue_message msg) ref (λ s. refl) (λ s. refl) in
    record { live = u.live; unique = u.unique; balanced = u.balanced }

queue_outcome-IsValid :
    (msg : PendingMessage) (m : Manager) (r : InitResult)
    → IsValid m
    → IsValid (queue_outcome msg (m, r)).0
queue_outcome-IsValid msg m (init_error e) v = v
queue_outcome-IsValid msg m init_absent v = v
queue_outcome-IsValid msg m (init_ok ref) v = append_message-IsValid m v ref msg

pub queue_message-IsValid :
    (store : SessionStore) (now : ℕ) (m : Manager)
    → IsValid m
    → (id : ℕ) (msg : PendingMessage) → IsValid (queue_message store now m id msg).0
unfolding queue_message
queue_message-IsValid store now m v id msg = elim (Option-cases (find_session m id)) [
  | inl new ↦
      let (m', r) = initialize_session store now m id "" 0 in
      rw (new, queue_message)
        (queue_outcome-IsValid msg m' r (initialize_session-IsValid store now m v id "" 0))
  | inr (ref, active) ↦ rw (active, queue_message) (append_message-IsValid m v ref msg)
]

pub drain_messages-IsValid : (m : Manager) → IsValid m → (id : ℕ) → IsValid (drain_messages m id).0
unfolding drain_messages clear_queue
drain_messages-IsValid m v id = elim (Option-cases (find_session m id)) [
  | inl gone ↦ rw (gone, drain_messages) v
  | inr (ref, active) ↦
      rw (active, drain_messages)
        (update_session-IsValid m v clear_queue ref (λ s. refl) (λ s. refl))
]

pub delete_sessions-IsValid :
    (ids : List ℕ) (m : Manager) → IsValid m → IsValid (delete_sessions m ids)
unfolding delete_sessions
delete_sessions-IsValid [] m v = v
delete_sessions-IsValid (id ∷ ids) m v =
    delete_sessions-IsValid ids (delete_session m id) (delete_session-IsValid m v id)

-- The calls that the worker makes, each with the time at which it comes.
pub data Call : Type 0 where
  initialize : ℕ → ℕ → String → ℕ → Call
  queue : ℕ → ℕ → PendingMessage → Call
  drain : ℕ → Call
  delete : ℕ → Call
  cleanup : ℕ → Call
  shutdown : Call

unfoldable pub call : SessionStore → Manager → Call → Manager
call store m (initialize now id prompt number) = (initialize_session store now m id prompt number).0
call store m (queue now id msg) = (queue_message store now m id msg).0
call store m (drain id) = (drain_messages m id).0
call store m (delete id) = delete_session m id
call store m (cleanup now) = cleanup_stale_sessions now m
call store m shutdown = shutdown_all m

unfoldable pub run : SessionStore → Manager → List Call → Manager
run store m [] = m
run store m (c ∷ cs) = run store (call store m c) cs

call-IsValid :
    (store : SessionStore) (m : Manager) (c : Call) → IsValid m → IsValid (call store m c)
unfolding call cleanup_stale_sessions shutdown_all stop_cleanup
call-IsValid store m (initialize now id prompt number) v =
    initialize_session-IsValid store now m v id prompt number
call-IsValid store m (queue now id msg) v = queue_message-IsValid store now m v id msg
call-IsValid store m (drain id) v = drain_messages-IsValid m v id
call-IsValid store m (delete id) v = delete_session-IsValid m v id
call-IsValid store m (cleanup now) v = delete_sessions-IsValid (stale_ids now m.heap m.sessions) m v
call-IsValid store m shutdown v =
    delete_sessions-IsValid (map (λ e. e.0) m.sessions) (stop_cleanup m)
      (record { live = v.live; unique = v.unique; balanced = v.balanced })

run-IsValid_from :
    (store : SessionStore) (cs : List Call) (m : Manager) → IsValid m → IsValid (run store m cs)
unfolding run
run-IsValid_from store [] m v = v
run-IsValid_from store (c ∷ cs) m v =
    run-IsValid_from store cs (call store m c) (call-IsValid store m c v)

-- After any sequence of calls on a new manager, with any database answers, the map holds no id
-- twice and points to sessions that are stored under their own ids and are not cancelled, and for
-- each id the creation callbacks are one more than the deletion callbacks if the session is
-- active, and equally many if it is not.
pub run-IsValid : (store : SessionStore) (cs : List Call) → IsValid (run store new_manager cs)
run-IsValid store cs = run-IsValid_from store cs new_manager new_manager-IsValid
