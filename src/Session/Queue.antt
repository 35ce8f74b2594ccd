-- ===== src/Session/Queue.antt =====
-- The queues of internal/worker/session/manager.go: QueueObservation and DrainMessages.
use claude_mnemonic_plus.Prelude.{
  ℕ, ◌≡◌, ◌≢◌, refl, sym, ap, ◌∙◌, inl, inr, Option, none, some, List, [], ◌∷◌, ◌++◌, append-nil,
  append_assoc, get_elem?, get_elem?-set_self, get_elem?-set_ne, arith, Option-cases,
}
use claude_mnemonic_plus.Session.{
  ActiveSession, PendingMessage, SessionStore, Manager, find_session, update_session,
}
use claude_mnemonic_plus.Session.Ops.{
  enqueue_message, append_message, queue_message, clear_queue, drain_messages, queue_of,
}
use claude_mnemonic_plus.Session.Invariant.{IsValid, session_apart}
use claude_mnemonic_plus.Session.Calls.{queue_message-IsValid, drain_messages-IsValid}

-- The queue of an active session.
abbrev pub queue_at : Manager → Option ℕ → List PendingMessage
queue_at m none = []
queue_at m (some ref) = queue_of (get_elem? m.heap ref)

abbrev pub pending : Manager → ℕ → List PendingMessage
pending m id = queue_at m (find_session m id)

module _ (f : ActiveSession → ActiveSession) (m : Manager) (ref : ℕ) (s : ActiveSession)
    (at : get_elem? m.heap ref ≡ some s) where
  pub update_session_self : get_elem? (update_session f m ref).heap ref ≡ some (f s)
  unfolding update_session
  update_session_self = rw (at, update_session) (get_elem?-set_self m.heap ref (f s) at)

  update_session_ne :
      (ref' : ℕ) → ref ≢ ref' → get_elem? (update_session f m ref).heap ref' ≡ get_elem? m.heap ref'
  unfolding update_session
  update_session_ne ref' ne = rw (at, update_session) (get_elem?-set_ne m.heap ref ref' (f s) ne)

  pub update_session_map : (update_session f m ref).sessions ≡ m.sessions
  unfolding update_session
  update_session_map = rw (at, update_session) refl

module _ (m : Manager) (v : IsValid m) (id : ℕ) {ref : ℕ}
    (active : find_session m id ≡ some ref) where
  pub queue_at-append_message :
      (msg : PendingMessage)
      → (find_session (append_message m ref msg) id ≡ some ref)
        × (pending (append_message m ref msg) id ≡ pending m id ++ msg ∷ [])
  unfolding append_message enqueue_message
  queue_at-append_message msg =
      let (s, at, _, _) = v.live id ref active in
      let sessions = update_session_map (enqueue_message msg) m ref s at in
      let here = update_session_self (enqueue_message msg) m ref s at in
      (rw sessions active, ground arith)

  -- Messages of other sessions stay as they are.
  pending_other-append_message :
      (msg : PendingMessage) (j : ℕ) → id ≢ j → pending (append_message m ref msg) j ≡ pending m j
  unfolding append_message
  pending_other-append_message msg j ne =
      let (s, at, _, _) = v.live id ref active in
      let sessions = update_session_map (enqueue_message msg) m ref s at in
      elim (Option-cases (find_session m j)) [
        | inl gone ↦ ground arith
        | inr (ref', other) ↦
            let apart =
              update_session_ne (enqueue_message msg) m ref s at ref'
                (session_apart m v id j ref ref' active other ne) in
            ground arith
      ]

  -- DrainMessages hands out the queue and leaves it empty.
  drain_messages_active :
      ((drain_messages m id).1 ≡ pending m id)
      × (pending (drain_messages m id).0 id ≡ [])
      × (find_session (drain_messages m id).0 id ≡ some ref)
  unfolding drain_messages clear_queue
  drain_messages_active =
      let (s, at, _, _) = v.live id ref active in
      let sessions = update_session_map clear_queue m ref s at in
      let here = update_session_self clear_queue m ref s at in
      (ground arith, ground arith, ground arith)

-- Queue several messages for one session.
unfoldable pub queue_all : SessionStore → ℕ → Manager → ℕ → List PendingMessage → Manager
queue_all store now m id [] = m
queue_all store now m id (msg ∷ msgs) =
    queue_all store now (queue_message store now m id msg).0 id msgs

module _ (store : SessionStore) (now : ℕ) (id : ℕ) where
  queue_message_active :
      (m : Manager) (msg : PendingMessage) {ref : ℕ}
      → find_session m id ≡ some ref
      → queue_message store now m id msg ≡ (append_message m ref msg, none)
  unfolding queue_message
  queue_message_active m msg active = rw (active, queue_message) refl

  pub pending-queue_all :
      (msgs : List PendingMessage) (m : Manager) {ref : ℕ}
      → IsValid m
      → find_session m id ≡ some ref
      → IsValid (queue_all store now m id msgs)
        × (find_session (queue_all store now m id msgs) id ≡ some ref)
        × (pending (queue_all store now m id msgs) id ≡ pending m id ++ msgs)
  unfolding queue_all
  pending-queue_all [] m v active = (v, active, sym (append-nil (pending m id)))
  pending-queue_all (msg ∷ msgs) m {ref} v active =
      let e = queue_message_active m msg active in
      let (found, grown) = queue_at-append_message m v id active msg in
      let m' = (queue_message store now m id msg).0 in
      let found' : find_session m' id ≡ some ref = ap (λ x. find_session x.0 id) e ∙ found in
      let grown' : pending m' id ≡ pending m id ++ msg ∷ [] = ap (λ x. pending x.0 id) e ∙ grown in
      let (v', at, all) =
        pending-queue_all msgs m' (queue_message-IsValid store now m v id msg) found' in
      (v', at, all ∙ ap (λ q. q ++ msgs) grown' ∙ append_assoc (pending m id) (msg ∷ []) msgs)

  -- For an active session of a valid manager, after the messages msgs have been queued for it one
  -- by one, DrainMessages returns the messages that were waiting followed by msgs, and a second
  -- DrainMessages returns none.
  pub drain_messages-queue_all :
      (msgs : List PendingMessage) (m : Manager) {ref : ℕ}
      → IsValid m
      → find_session m id ≡ some ref
      → let (m', out) = drain_messages (queue_all store now m id msgs) id in
        (out ≡ pending m id ++ msgs) × ((drain_messages m' id).1 ≡ [])
  drain_messages-queue_all msgs m v active =
      let (v', at, all) = pending-queue_all msgs m v active in
      let m' = queue_all store now m id msgs in
      let (out, empty, still) = drain_messages_active m' v' id at in
      let (out', _, _) =
        drain_messages_active (drain_messages m' id).0 (drain_messages-IsValid m' v' id) id still in
      (out ∙ all, out' ∙ empty)

  -- On a valid manager, queueing a message for an active session leaves the queue of every other
  -- session as it was.
  pub pending_other-queue_message :
      (m : Manager) (msg : PendingMessage) (j : ℕ) {ref : ℕ}
      → IsValid m
      → find_session m id ≡ some ref
      → id ≢ j
      → pending (queue_message store now m id msg).0 j ≡ pending m j
  pending_other-queue_message m msg j v active ne =
      ap (λ x. pending x.0 j) (queue_message_active m msg active)
      ∙ pending_other-append_message m v id active msg j ne
