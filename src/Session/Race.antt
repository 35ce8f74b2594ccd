-- ===== src/Session/Race.antt =====
-- Calls whose critical sections interleave: racing initialisations, and a deletion between the
-- lookup and the append of QueueObservation.
use claude_mnemonic_plus.Prelude.{
  ℕ, suc, ◌≡◌, refl, inl, inr, true, none, some, List, [], ◌∷◌, ◌++◌, length, replicate, get_elem?,
  lookup, delete, ◌≢◌, sym, ap, ◌∙◌, lookup-insert, arith, Option-cases, ℕ_discrete,
}
use claude_mnemonic_plus.Session.{
  ActiveSession, PendingMessage, Manager, find_session, publish_session,
}
use claude_mnemonic_plus.Session.Ops.{
  append_message, enqueue_message, cancel_session, queue_of, delete_session, delete_sessions,
  is_stale, stale_ids,
}
use claude_mnemonic_plus.Session.Invariant.{IsValid, session_apart}
use claude_mnemonic_plus.Session.Cleanup.{
  find_session-delete_session, find_session-delete_sessions, member-stale_ids,
}
use claude_mnemonic_plus.Session.Queue.{
  pending, queue_at-append_message, update_session_self, update_session_map,
}

-- The last critical sections of several calls of InitializeSession for one id, in the order in
-- which they get the lock.
unfoldable pub publish_all : Manager → ℕ → List ActiveSession → Manager × List ℕ
publish_all m id [] = (m, [])
publish_all m id (s ∷ ss) =
    let (m', ref) = publish_session m id s in
    let (m'', refs) = publish_all m' id ss in (m'', ref ∷ refs)

publish_session_again :
    (m : Manager) (id ref : ℕ) (s : ActiveSession)
    → find_session m id ≡ some ref
    → publish_session m id s ≡ (m, ref)
unfolding publish_session
publish_session_again m id ref s h = rw (h, publish_session) refl

find_session-publish_session :
    (m : Manager) (id : ℕ) (s : ActiveSession)
    → find_session (publish_session m id s).0 id ≡ some (publish_session m id s).1
unfolding publish_session
find_session-publish_session m id s = elim (Option-cases (find_session m id)) [
  | inl free ↦ ground (arith, lookup-insert ℕ_discrete id id (length m.heap) m.sessions)
  | inr (ref, taken) ↦ rw (taken, publish_session) taken
]

publish_all_again :
    (ss : List ActiveSession) (m : Manager) (id ref : ℕ)
    → find_session m id ≡ some ref
    → publish_all m id ss ≡ (m, replicate (length ss) ref)
unfolding publish_all
publish_all_again [] m id ref h = refl
publish_all_again (s ∷ ss) m id ref h =
    let one = publish_session_again m id ref s h in
    let ih = publish_all_again ss m id ref h in ground arith

-- If several calls of InitializeSession reach the insertion for an id that is not active, all
-- return the pointer to the session that the first of them inserts, no other session is stored,
-- and the creation callback is made once.
pub publish_all_race :
    (m : Manager) (id : ℕ) (s : ActiveSession) (ss : List ActiveSession)
    → find_session m id ≡ none
    → let (m', refs) = publish_all m id (s ∷ ss) in
      (refs ≡ replicate (suc (length ss)) (length m.heap))
      × (m'.created ≡ id ∷ m.created)
      × (m'.heap ≡ m.heap ++ s ∷ [])
unfolding publish_all publish_session
publish_all_race m id s ss free =
    let (m', ref) = publish_session m id s in
    let again = publish_all_again ss m' id ref (find_session-publish_session m id s) in
    (ground arith, ground arith, ground arith)

-- If an active session of a valid manager is deleted between the lookup and the append of
-- QueueObservation, the message is lost: it goes into the queue of the deleted session, behind
-- the messages that wait there, and afterwards no id leads to that session.
pub queue_race_loses :
    (m : Manager) (id ref : ℕ) (s : ActiveSession) (msg : PendingMessage)
    → IsValid m
    → find_session m id ≡ some ref
    → get_elem? m.heap ref ≡ some s
    → let m' = append_message (delete_session m id) ref msg in
      (queue_of (get_elem? m'.heap ref) ≡ s.pending_messages ++ msg ∷ [])
      × ((j : ℕ) → find_session m' j ≢ some ref)
unfolding append_message
queue_race_loses m id ref s msg v active at =
    let m0 = record m { sessions = delete ℕ_discrete id m.sessions } in
    let cancelled = update_session_self cancel_session m0 ref s at in
    let d = delete_session m id in
    let there : get_elem? d.heap ref ≡ some (cancel_session s) =
      unfold delete_session in ground (arith, active, cancelled) in
    let here = update_session_self (enqueue_message msg) d ref (cancel_session s) there in
    let kept = update_session_map (enqueue_message msg) d ref (cancel_session s) there in
    (
      unfold enqueue_message cancel_session in ground (arith, here),
      λ j found.
          let before : find_session d j ≡ some ref = ap (lookup ℕ_discrete j) (sym kept) ∙ found in
          let gone = find_session-delete_session m id j in
          elim (ℕ_discrete id j) [
            | yes e ↦ absurd (ground (arith, before, gone, e))
            | no ne ↦
                let old : find_session m j ≡ some ref = ground (arith, before, gone, ne) in
                session_apart m v id j ref ref active old ne refl
          ],
    )

-- On a valid manager, a message queued for a stale active session after cleanupStaleSessions has
-- collected the stale ids, and before it deletes them, goes into the session's queue, and the
-- deletion then removes the session.
pub cleanup_race_loses :
    (now : ℕ) (m : Manager) (id ref : ℕ) (s : ActiveSession) (msg : PendingMessage)
    → IsValid m
    → find_session m id ≡ some ref
    → get_elem? m.heap ref ≡ some s
    → is_stale now s ≡ true
    → let m' = append_message m ref msg in
      (pending m' id ≡ pending m id ++ msg ∷ [])
      × (find_session (delete_sessions m' (stale_ids now m.heap m.sessions)) id ≡ none)
cleanup_race_loses now m id ref s msg v active at stale =
    let listed = member-stale_ids now m.heap m.sessions id v.unique in
    let gone =
      find_session-delete_sessions (stale_ids now m.heap m.sessions) (append_message m ref msg)
        id in
    ((queue_at-append_message m v id active msg).1, ground arith)
