-- ===== src/Dispatcher/Tracking.antt =====
-- The connected projects: the callbacks that muxcore makes, and what ConnectedProjectIDs reports.
use claude_mnemonic_plus.Prelude.{
  ◌≡◌, refl, ◌∙◌, String, Bool, true, false, List, [], ◌∷◌, map, ite, dec_str, arith, if◌then◌else◌,
}
use claude_mnemonic_plus.Module.{Outcome}
use claude_mnemonic_plus.Registry.{lifecycle_handlers}
use claude_mnemonic_plus.Dispatcher.{Dispatcher}

-- Whether sync.Map holds a key.
unfoldable pub is_tracked : String → List String → Bool
is_tracked id [] = false
is_tracked id (x ∷ xs) = ite (dec_str x id) true (is_tracked id xs)

-- tracked.Store
unfoldable pub track : String → List String → List String
track id xs = if is_tracked id xs then xs else id ∷ xs

-- tracked.Delete
unfoldable pub untrack : String → List String → List String
untrack id [] = []
untrack id (x ∷ xs) = let rest = untrack id xs in ite (dec_str x id) rest (x ∷ rest)

pub data SessionEvent : Type 0 where
  connect : String → SessionEvent
  disconnect : String → SessionEvent

module _ {Bytes : Type 0} where
  -- OnProjectConnect, with what each module's callback did. Each runs under panic recovery, so the
  -- loop goes on after a panic.
  unfoldable pub on_project_connect : String → Dispatcher Bytes → Dispatcher Bytes × List Outcome
  on_project_connect id d = (
    record d { tracked = track id d.tracked },
    map (λ h. h.on_session_connect id) (lifecycle_handlers d.reg),
  )

  -- OnProjectDisconnect
  unfoldable pub on_project_disconnect : String → Dispatcher Bytes → Dispatcher Bytes × List Outcome
  on_project_disconnect id d = (
    record d { tracked = untrack id d.tracked },
    map (λ h. h.on_session_disconnect id) (lifecycle_handlers d.reg),
  )

  -- ConnectedProjectIDs
  unfoldable pub connected_project_ids : Dispatcher Bytes → List String
  connected_project_ids d = d.tracked

  unfoldable pub session_event : SessionEvent → Dispatcher Bytes → Dispatcher Bytes
  unfolding on_project_connect on_project_disconnect
  session_event (connect id) d = (on_project_connect id d).0
  session_event (disconnect id) d = (on_project_disconnect id d).0

  unfoldable pub session_events : List SessionEvent → Dispatcher Bytes → Dispatcher Bytes
  session_events [] d = d
  session_events (e ∷ es) d = session_events es (session_event e d)

-- Whether a project is connected after the events, by the last of them that names it.
unfoldable pub connected_after : String → List SessionEvent → Bool → Bool
connected_after id [] b = b
connected_after id (connect x ∷ es) b = connected_after id es (ite (dec_str x id) true b)
connected_after id (disconnect x ∷ es) b = connected_after id es (ite (dec_str x id) false b)

is_tracked-track :
    (x id : String) (xs : List String)
    → is_tracked id (track x xs) ≡ ite (dec_str x id) true (is_tracked id xs)
unfolding track is_tracked
is_tracked-track x id xs = elim (dec_str x id) [ yes p ↦ rw p (ground arith) | no p ↦ ground arith ]

is_tracked-untrack :
    (x id : String) (xs : List String)
    → is_tracked id (untrack x xs) ≡ ite (dec_str x id) false (is_tracked id xs)
unfolding untrack is_tracked
is_tracked-untrack x id [] = ground arith
is_tracked-untrack x id (y ∷ ys) = ground (arith, is_tracked-untrack x id ys)

module _ {Bytes : Type 0} where
  -- After any sequence of connect and disconnect callbacks, ConnectedProjectIDs has a project
  -- exactly if the last of them that names it is a connect, or none names it and the dispatcher
  -- had it before.
  pub is_tracked-session_events :
      (id : String) (es : List SessionEvent) (d : Dispatcher Bytes)
      → is_tracked id (connected_project_ids (session_events es d))
        ≡ connected_after id es (is_tracked id (connected_project_ids d))
  unfolding session_events session_event connected_after connected_project_ids
  is_tracked-session_events id [] d = refl
  is_tracked-session_events id (connect x ∷ es) d =
      is_tracked-session_events id es (session_event (connect x) d)
      ∙ rw (is_tracked-track x id d.tracked)
  is_tracked-session_events id (disconnect x ∷ es) d =
      is_tracked-session_events id es (session_event (disconnect x) d)
      ∙ rw (is_tracked-untrack x id d.tracked)
