-- ===== src/Session/Cleanup.antt =====
-- The deletions of internal/worker/session/manager.go: one session, the stale ones, all.
use claude_mnemonic_plus.Prelude.{
  ℕ, ◌<◌, ◌-◌, ◌≡◌, ◌↔◌, ◌⊎◌, inl, inr, Bool-cases, refl, sym, ap, ◌∙◌, Bool, true, false, Option,
  none, some, List, [], ◌∷◌, ite, get_elem?, lookup, lookup-delete, UniqueKeys, arith, ℕ_discrete,
  if◌then◌else◌, map,
}
use claude_mnemonic_plus.Session.{ActiveSession, Manager, find_session, update_session}
use claude_mnemonic_plus.Session.Ops.{
  stop_cleanup, delete_session, delete_sessions, is_stale, session_timeout, stale_ref, stale_ids,
  cleanup_stale_sessions, shutdown_all,
}
use claude_mnemonic_plus.Session.Invariant.{IsValid}

-- Whether an id is in a list.
pub member : ℕ → List ℕ → Bool
member id [] = false
member id (x ∷ xs) = ite (ℕ_discrete x id) true (member id xs)

update_session_sessions :
    (f : ActiveSession → ActiveSession) (m : Manager) (ref : ℕ)
    → (update_session f m ref).sessions ≡ m.sessions
unfolding update_session
update_session_sessions f m ref = ground arith

-- What is active after a deletion.
pub find_session-delete_session :
    (m : Manager) (id j : ℕ)
    → find_session (delete_session m id) j ≡ ite (ℕ_discrete id j) none (find_session m j)
unfolding delete_session update_session
find_session-delete_session m id j = ground (arith, lookup-delete ℕ_discrete id j m.sessions)

pub find_session-delete_sessions :
    (ids : List ℕ) (m : Manager) (j : ℕ)
    → find_session (delete_sessions m ids) j ≡ (if member j ids then none else find_session m j)
unfolding delete_sessions member
find_session-delete_sessions [] m j = refl
find_session-delete_sessions (id ∷ ids) m j = ground (
  arith,
  find_session-delete_sessions ids (delete_session m id) j,
  find_session-delete_session m id j,
)

abbrev pub stale_at : ℕ → List ActiveSession → Option ℕ → Bool
stale_at now heap none = false
stale_at now heap (some ref) = stale_ref now (get_elem? heap ref)

pub member-stale_ids :
    (now : ℕ) (heap : List ActiveSession) (m : List (ℕ × ℕ)) (j : ℕ)
    → UniqueKeys ℕ_discrete m
    → member j (stale_ids now heap m) ≡ stale_at now heap (lookup ℕ_discrete j m)
unfolding member stale_ids lookup
member-stale_ids now heap [] j u = refl
member-stale_ids now heap ((id, ref) ∷ m) j u =
    let ih = member-stale_ids now heap m j u.1 in
    elim (ℕ_discrete id j) [
      | yes e ↦
          let gone : lookup ℕ_discrete j m ≡ none = ap (λ x. lookup ℕ_discrete x m) (sym e) ∙ u.0 in
          ground arith
      | no e ↦ ground arith
    ]

-- What makes a session stale.
abbrev pub IsStale : ℕ → ActiveSession → Type 0
IsStale now s =
    (s.pending_messages ≡ [])
    × (s.generator_active ≡ false)
    × (session_timeout < now - s.start_time)

is_stale_iff : (now : ℕ) (s : ActiveSession) → (is_stale now s ≡ true) ↔ IsStale now s
unfolding is_stale
is_stale_iff now s = ground arith

find_session-cleanup_sessions :
    (now : ℕ) (m : Manager) (id ref : ℕ) (s : ActiveSession)
    → IsValid m
    → find_session m id ≡ some ref
    → get_elem? m.heap ref ≡ some s
    → find_session (cleanup_stale_sessions now m) id ≡ (if is_stale now s then none else some ref)
unfolding cleanup_stale_sessions
find_session-cleanup_sessions now m id ref s v active at =
    let w = member-stale_ids now m.heap m.sessions id v.unique in
    let d = find_session-delete_sessions (stale_ids now m.heap m.sessions) m id in ground arith

-- For an active session of a valid manager, cleanupStaleSessions removes it from the map exactly
-- if it has no pending message, no active generator, and started longer ago than the timeout; and
-- the map either loses it or keeps its pointer.
pub find_session-cleanup :
    (now : ℕ) (m : Manager) (id ref : ℕ) (s : ActiveSession)
    → IsValid m
    → find_session m id ≡ some ref
    → get_elem? m.heap ref ≡ some s
    → ((find_session (cleanup_stale_sessions now m) id ≡ none) ↔ IsStale now s)
      × ((find_session (cleanup_stale_sessions now m) id ≡ none)
          ⊎ (find_session (cleanup_stale_sessions now m) id ≡ some ref))
find_session-cleanup now m id ref s v active at =
    let e = find_session-cleanup_sessions now m id ref s v active at in
    let (to, back) = is_stale_iff now s in
    elim (Bool-cases (is_stale now s)) [
      | inl stale ↦ ((λ h. to stale, λ h. ground arith), inl (ground arith))
      | inr fresh ↦ ((λ h. ground arith, λ h. absurd (ne fresh (back h))), inr (ground arith))
    ]
  where
    ne : {b : Bool} → b ≡ false → ¬ (b ≡ true)
    ne f t = cc

member-keys :
    (m : List (ℕ × ℕ)) (j : ℕ)
    → member j (map (λ e. e.0) m) ≡ elim (lookup ℕ_discrete j m) [ none ↦ false | some _ ↦ true ]
unfolding member lookup
member-keys [] j = refl
member-keys ((id, ref) ∷ m) j = ground (arith, member-keys m j)

-- After ShutdownAll no session is active.
pub find_session-shutdown_all : (m : Manager) (id : ℕ) → find_session (shutdown_all m) id ≡ none
unfolding shutdown_all stop_cleanup
find_session-shutdown_all m id = ground (
  arith,
  find_session-delete_sessions (map (λ e. e.0) m.sessions) (stop_cleanup m) id,
  member-keys m.sessions id,
)
