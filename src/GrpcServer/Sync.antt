-- ===== src/GrpcServer/Sync.antt =====
-- SyncProjectState of internal/grpcserver/sync_project_state.go.
use claude_mnemonic_plus.Prelude.{
  ℕ, ◌-◌, ◌≤◌, ◌≢◌, ◌≡◌, refl, ap, ◌∙◌, String, Bool, true, false, not, ◌&&◌, Option, none, some,
  List, [], ◌∷◌, ite, ltb, length, lookup, insert, lookup-insert, dec_str, ◌⊎◌, inl, inr, arith,
  if◌then◌else◌,
}
use claude_mnemonic_plus.Bridge.{SyncResponse}
use claude_mnemonic_plus.Bridge.Delivery.{is_in}

abbrev pub max_sync_project_ids : ℕ
max_sync_project_ids = 10000

-- Times are milliseconds.
abbrev pub heartbeat_stale_threshold : ℕ
heartbeat_stale_threshold = 86400000

-- A row (id, removed_at) of the first query, `none` for NULL.
abbrev pub ProjectRow : Type 0
ProjectRow = String × Option ℕ

-- The database: the answer of `SELECT id, removed_at … WHERE id = ANY(ids)`, and that of the query
-- for the projects without a heartbeat since a time; `none` for an error.
pub record ProjectsDb : Type 0 where
  pub rows_of : List String → Option (List ProjectRow)
  pub stale_since : ℕ → Option (List String)

pub data SyncError : Type 0 where
  client_id_empty : SyncError
  too_many_ids : ℕ → SyncError
  database_not_ready : SyncError
  query_failed : SyncError

-- serverKnown: a later row for an identifier replaces an earlier one.
unfoldable pub server_known : List ProjectRow → List (String × Option ℕ) → List (String × Option ℕ)
server_known [] known = known
server_known ((id, removed_at) ∷ rows) known =
    server_known rows (insert dec_str id removed_at known)

-- `!known || ra != nil`
unfoldable pub is_gone : Option (Option ℕ) → Bool
is_gone none = true
is_gone (some none) = false
is_gone (some (some t)) = true

-- The loop that classifies the reported identifiers.
unfoldable pub classify : List (String × Option ℕ) → List String → List String
classify known [] = []
classify known (id ∷ ids) =
    let rest = classify known ids in if is_gone (lookup dec_str id known) then id ∷ rest else rest

-- The removed projects, and the identifiers that the update of the heartbeat names; the database
-- applies it to those of their rows that are not removed.
unfoldable pub reconcile : ProjectsDb → List String → SyncError ⊎ (List String × List String)
reconcile db [] = inr ([], [])
reconcile db (id ∷ ids) = elim (db.rows_of (id ∷ ids)) [
  | none ↦ inl query_failed
  | some rows ↦ inr (classify (server_known rows []) (id ∷ ids), id ∷ ids)
]

unfoldable pub stale_or_none : Option (List String) → List String
stale_or_none none = []
stale_or_none (some ids) = ids

-- SyncProjectState at the time `now`: the response, with the identifiers that the update of the
-- heartbeat names.
unfoldable pub sync_project_state :
    Option ProjectsDb → ℕ → String → List String → SyncError ⊎ (SyncResponse × List String)
sync_project_state db now client_id local_ids = ite (dec_str client_id "") (inl client_id_empty) (
    if ltb max_sync_project_ids (length local_ids)
    then inl (too_many_ids (length local_ids))
    else elim db [
      | none ↦ inl database_not_ready
      | some d ↦ elim (reconcile d local_ids) [
        | inl e ↦ inl e
        | inr (removed, touched) ↦ inr (
          record {
            removed = removed;
            unknown = stale_or_none (d.stale_since (now - heartbeat_stale_threshold));
            server_time_unix_ms = now;
          },
          touched,
        )
      ]
    ])

-- Whether the last row for a project, if there is one, says that it is not removed.
unfoldable pub is_live : String → List ProjectRow → Bool → Bool
is_live p [] live = live
is_live p ((id, none) ∷ rows) live = is_live p rows (ite (dec_str id p) true live)
is_live p ((id, some t) ∷ rows) live = is_live p rows (ite (dec_str id p) false live)

is_gone-server_known :
    (p : String) (rows : List ProjectRow) (known : List (String × Option ℕ))
    → is_gone (lookup dec_str p (server_known rows known))
      ≡ not (is_live p rows (not (is_gone (lookup dec_str p known))))
unfolding server_known is_live is_gone
is_gone-server_known p [] known = ground arith
is_gone-server_known p ((id, none) ∷ rows) known =
    is_gone-server_known p rows (insert dec_str id none known)
    ∙ ap (λ b. not (is_live p rows b))
        (ap (λ o. not (is_gone o)) (lookup-insert dec_str id p none known) ∙ ground arith)
is_gone-server_known p ((id, some t) ∷ rows) known =
    is_gone-server_known p rows (insert dec_str id (some t) known)
    ∙ ap (λ b. not (is_live p rows b))
        (ap (λ o. not (is_gone o)) (lookup-insert dec_str id p (some t) known) ∙ ground arith)

is_in-classify :
    (p : String) (known : List (String × Option ℕ)) (ids : List String)
    → is_in p (classify known ids) ≡ is_in p ids && is_gone (lookup dec_str p known)
unfolding is_in classify
is_in-classify p known [] = refl
is_in-classify p known (id ∷ ids) = elim (dec_str id p) [
  | yes e ↦
      let same = ap (λ x. is_gone (lookup dec_str x known)) e in
      ground (arith, is_in-classify p known ids)
  | no ne ↦ ground (arith, is_in-classify p known ids)
]

-- For a client with an identifier that reports at most 10,000 projects, and a database whose
-- first query succeeds, SyncProjectState answers. It reports as removed exactly the reported
-- projects for which the query has no row, or a last row with a time of removal, and it sets the
-- heartbeat of the reported projects.
pub sync_project_state-removed :
    (d : ProjectsDb) (now : ℕ) (client_id : String) (ids : List String) (rows : List ProjectRow)
    → client_id ≢ ""
    → length ids ≤ max_sync_project_ids
    → d.rows_of ids ≡ some rows
    → (resp : SyncResponse) × (sync_project_state (some d) now client_id ids ≡ inr (resp, ids))
      × ((p : String) → is_in p resp.removed ≡ is_in p ids && not (is_live p rows false))
unfolding sync_project_state reconcile is_in lookup is_gone
sync_project_state-removed d now client_id [] rows named few answered = (
  record {
    removed = [];
    unknown = stale_or_none (d.stale_since (now - heartbeat_stale_threshold));
    server_time_unix_ms = now;
  },
  ground arith,
  λ p. refl,
)
sync_project_state-removed d now client_id (id ∷ ids) rows named few answered = (
  record {
    removed = classify (server_known rows []) (id ∷ ids);
    unknown = stale_or_none (d.stale_since (now - heartbeat_stale_threshold));
    server_time_unix_ms = now;
  },
  ground arith,
  λ p.
      is_in-classify p (server_known rows []) (id ∷ ids)
      ∙ ap (λ b. is_in p (id ∷ ids) && b) (is_gone-server_known p rows []),
)
