-- ===== src/Reaper/Retention.antt =====
-- Which projects internal/worker/reaper/reaper.go deletes.
use claude_mnemonic_plus.Prelude.{
  ℕ, ◌+◌, ◌*◌, ◌≤◌, ◌≡◌, refl, ap, ◌∙◌, Bool, true, not, List, [], ◌∷◌, none, some, ltb, pos,
  if◌then◌else◌, arith,
}
use claude_mnemonic_plus.Reaper.{
  ProjectRow, retention_days, wrap_int64, retention, is_before_cutoff, is_purged, delete_rows,
  purge, purge_once,
}

-- A project that is kept: one that was not removed, or not more than so many days ago.
unfoldable pub is_retained : ℕ → ℕ → ProjectRow → Bool
is_retained now days row = elim row.removed_at [
  | none ↦ true
  | some t ↦ not (ltb (t + days * 86400000000000) now)
]

unfoldable pub retained : ℕ → ℕ → List ProjectRow → List ProjectRow
retained now days [] = []
retained now days (row ∷ rows) =
    let rest = retained now days rows in if is_retained now days row then row ∷ rest else rest

retention_exact : (days : ℕ) → days ≤ 106751 → retention days ≡ pos (days * 86400000000000)
unfolding retention wrap_int64
retention_exact days h = ground arith

is_purged-is_retained :
    (now days : ℕ) (row : ProjectRow)
    → is_purged now (pos (days * 86400000000000)) row ≡ not (is_retained now days row)
unfolding is_purged is_retained is_before_cutoff
is_purged-is_retained now days row = ground arith

delete_rows-retained :
    (now days : ℕ) (rows : List ProjectRow)
    → delete_rows now (pos (days * 86400000000000)) rows ≡ retained now days rows
unfolding delete_rows retained
delete_rows-retained now days [] = refl
delete_rows-retained now days (row ∷ rows) =
    ground (arith, delete_rows-retained now days rows, is_purged-is_retained now days row)

-- If the retention is at most 106,751 days, which is as many as a duration can hold, PurgeOnce
-- with a database whose query succeeds leaves exactly the projects that were not removed, or not
-- more than so many days ago.
pub purge_once-retained :
    (env : List ℕ) (now : ℕ) (rows : List ProjectRow)
    → retention_days env ≤ 106751
    → purge_once true true env now rows ≡ some (retained now (retention_days env) rows)
unfolding purge_once purge
purge_once-retained env now rows h =
    ap (λ r. some (delete_rows now r rows)) (retention_exact (retention_days env) h)
    ∙ ap some (delete_rows-retained now (retention_days env) rows)
