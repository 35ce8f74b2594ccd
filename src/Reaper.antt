-- ===== src/Reaper.antt =====
-- internal/worker/reaper/reaper.go: the deletion of projects that were removed long ago. Times are
-- natural numbers of nanoseconds, a duration is a signed integer of 64 bits, and the table of the
-- projects is the list of its rows.
pub mod Retention
mod Tests
use claude_mnemonic_plus.Prelude.{
  ℕ, suc, ◌+◌, ◌-◌, ◌*◌, ◌%◌, String, Bool, true, false, not, List, [], ◌∷◌, Option, none, some,
  ltb, ◌==◌, ℤ, pos, negsuc, if◌then◌else◌, bytes_eq,
}
use claude_mnemonic_plus.GrpcServer.Version.{atoi}

-- A row of the table projects: when it was removed, if it was.
pub record ProjectRow : Type 0 where
  pub id : String
  pub removed_at : Option ℕ

abbrev pub default_retention_days : ℕ
default_retention_days = 30

-- The number of days that retentionDays takes from what strconv.Atoi returns.
unfoldable pub days_of : Option ℤ → ℕ
days_of none = default_retention_days
days_of (some (pos n)) = if ltb 0 n then n else default_retention_days
days_of (some (negsuc n)) = default_retention_days

-- retentionDays, of the value of ENGRAM_PROJECT_RETENTION_DAYS.
unfoldable pub retention_days : List ℕ → ℕ
retention_days v = if bytes_eq v [] then default_retention_days else days_of (atoi v)

-- The integer of 64 bits with the bits of a natural number.
unfoldable pub wrap_int64 : ℕ → ℤ
wrap_int64 n =
    let m = n % 18446744073709551616 in
    if ltb m 9223372036854775808 then pos m else negsuc (18446744073709551616 - m - 1)

-- time.Duration(retentionDays()) * 24 * time.Hour
unfoldable pub retention : ℕ → ℤ
retention days = wrap_int64 (days * 86400000000000)

-- `removed_at < now.Add(-retention)`: the least integer is its own negation.
unfoldable pub is_before_cutoff : ℕ → ℕ → ℤ → Bool
is_before_cutoff removed now (pos r) = ltb (removed + r) now
is_before_cutoff removed now (negsuc k) =
    if suc k == 9223372036854775808
    then ltb (removed + 9223372036854775808) now
    else ltb removed (now + suc k)

-- The condition of the DELETE.
unfoldable pub is_purged : ℕ → ℤ → ProjectRow → Bool
is_purged now r row = elim row.removed_at [ none ↦ false | some t ↦ is_before_cutoff t now r ]

-- The rows that the DELETE leaves.
unfoldable pub delete_rows : ℕ → ℤ → List ProjectRow → List ProjectRow
delete_rows now r [] = []
delete_rows now r (row ∷ rows) =
    let rest = delete_rows now r rows in if is_purged now r row then rest else row ∷ rest

-- purge: whether there is a database, and whether the query succeeds, are inputs.
unfoldable pub purge : Bool → Bool → List ℕ → ℕ → List ProjectRow → List ProjectRow
purge has_db succeeds env now rows =
    if has_db
    then (if succeeds then delete_rows now (retention (retention_days env)) rows else rows)
    else rows

-- PurgeOnce, `none` for an error.
unfoldable pub purge_once : Bool → Bool → List ℕ → ℕ → List ProjectRow → Option (List ProjectRow)
purge_once has_db succeeds env now rows =
    if has_db then some (purge has_db succeeds env now rows) else none
