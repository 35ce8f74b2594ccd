-- ===== src/GrpcServer/Heartbeat.antt =====
-- A heartbeat from end to end: the dispatcher's connected projects, the bridge's request, the
-- server's answer, and the fan-out to the modules.
use claude_mnemonic_plus.Prelude.{
  ℕ, ◌≤◌, ◌≡◌, ◌≢◌, refl, sym, ap, ◌∙◌, String, true, false, not, ◌&&◌, Option, none, some, List,
  [], ◌∷◌, map, length, dec_str, ite, ◌⊎◌, inl, inr, arith,
}
use claude_mnemonic_plus.Dedup.{dedup_capacity, new_lru}
use claude_mnemonic_plus.Dispatcher.{Dispatcher}
use claude_mnemonic_plus.Dispatcher.Tracking.{
  is_tracked, connected_project_ids, SessionEvent, session_events, connected_after,
  is_tracked-session_events,
}
use claude_mnemonic_plus.Bridge.{Bridge, SyncResponse, local_project_ids, handle_removed_all}
use claude_mnemonic_plus.Bridge as Client
use claude_mnemonic_plus.Bridge.Announce.{
  reconciled, removal_of, cons_option, removals, handle_removed_all_lem,
}
use claude_mnemonic_plus.Bridge.Delivery.{is_in, deliveries, deliveries-bridge_steps}
use claude_mnemonic_plus.GrpcServer.Sync.{
  ProjectRow, ProjectsDb, SyncError, max_sync_project_ids, is_live, sync_project_state,
  sync_project_state-removed,
}

-- What the client sees of the server's answer.
abbrev received_answer : SyncError ⊎ (SyncResponse × List String) → Option SyncResponse
received_answer (inl e) = none
received_answer (inr (resp, touched)) = some resp

-- The call over the wire, at the server's time `now`.
abbrev pub call_server : ProjectsDb → ℕ → String → List String → Option SyncResponse
call_server db now client_id ids = received_answer (sync_project_state (some db) now client_id ids)

is_in-removals :
    (p : String) (ps : List String)
    → p ≢ ""
    → is_in p ps ≡ true
    → is_in p (removals (map reconciled ps)) ≡ true
unfolding is_in removals removal_of cons_option
is_in-removals p [] named m = absurd cc
is_in-removals p (q ∷ ps) named m = elim (dec_str q p) [
  | yes e ↦ let q_named : q ≢ "" = λ x. named (sym e ∙ x) in ground arith
  | no ne ↦ elim (dec_str q "") [
    | yes e ↦ ground (arith, is_in-removals p ps named)
    | no named_q ↦ ground (arith, is_in-removals p ps named)
  ]
]

is_in-is_tracked : (p : String) (ps : List String) → is_in p ps ≡ is_tracked p ps
unfolding is_in is_tracked
is_in-is_tracked p [] = refl
is_in-is_tracked p (q ∷ ps) = ap (ite (dec_str q p) true) (is_in-is_tracked p ps)

module _ {Bytes : Type 0} where
  heartbeat-delivers :
      (p : String) (db : ProjectsDb) (now : ℕ) (rows : List ProjectRow) (b : Bridge Bytes)
      → b.client_id ≢ ""
      → length (local_project_ids b) ≤ max_sync_project_ids
      → db.rows_of (local_project_ids b) ≡ some rows
      → b.dedup ≡ new_lru dedup_capacity
      → p ≢ ""
      → is_in p (local_project_ids b) ≡ true
      → is_live p rows false ≡ false
      → 1 ≤ deliveries p (Client.sync_project_state (call_server db now) b).1
  unfolding Client.sync_project_state
  heartbeat-delivers p db now rows b client few answered new named here gone =
      let (resp, e, removed) =
        sync_project_state-removed db now b.client_id (local_project_ids b) rows client few
          answered in
      let reported : is_in p resp.removed ≡ true =
        removed p ∙ ap (λ x. x && not (is_live p rows false)) here ∙ ap not gone in
      let run : Client.sync_project_state (call_server db now) b
          ≡ handle_removed_all resp.removed b =
        ap
          (λ a. elim a as (λ _. Bridge Bytes × List Client.FanOut) [
            | none ↦ (b, [])
            | some r ↦ handle_removed_all r.removed b
          ])
          (ap received_answer e) in
      omega (
        arith,
        ap (λ x. deliveries p x.1) run,
        ap (λ x. deliveries p x.1) (handle_removed_all_lem resp.removed b),
        deliveries-bridge_steps p b (map reconciled resp.removed) new
            (is_in-removals p resp.removed named reported),
      )

  -- A project whose last session event at the dispatcher is a connect, and that the database does
  -- not have or has as removed, is passed on with the next heartbeat, without any event of the
  -- stream: if the bridge takes the connected projects from this dispatcher, its client has an
  -- identifier, at most 10,000 projects are connected, the first query of the database succeeds,
  -- the cache is new and the project is not empty, the heartbeat makes a fan-out for it.
  pub heartbeat-session_events :
      (p : String) (db : ProjectsDb) (now : ℕ) (rows : List ProjectRow) (b : Bridge Bytes)
      (d : Dispatcher Bytes) (es : List SessionEvent)
      → b.tracker ≡ some (connected_project_ids (session_events es d))
      → connected_after p es (is_tracked p (connected_project_ids d)) ≡ true
      → b.client_id ≢ ""
      → length (connected_project_ids (session_events es d)) ≤ max_sync_project_ids
      → db.rows_of (connected_project_ids (session_events es d)) ≡ some rows
      → is_live p rows false ≡ false
      → b.dedup ≡ new_lru dedup_capacity
      → p ≢ ""
      → 1 ≤ deliveries p (Client.sync_project_state (call_server db now) b).1
  unfolding local_project_ids
  heartbeat-session_events p db now rows b d es tracks connected client few answered gone new
        named =
      let ids = connected_project_ids (session_events es d) in
      let local : local_project_ids b ≡ ids =
        ap (λ t. elim t as (λ _. List String) [ none ↦ [] | some x ↦ x ]) tracks in
      let here : is_in p (local_project_ids b) ≡ true =
        ap (is_in p) local
        ∙ is_in-is_tracked p ids
        ∙ is_tracked-session_events p es d
        ∙ connected in
      heartbeat-delivers p db now rows b client (omega (arith, ap length local, few))
        (ap db.rows_of local ∙ answered) new named here gone
