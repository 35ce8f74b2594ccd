-- ===== src/Reaper/Tests.antt =====
-- A table, and the theorem at it.
use claude_mnemonic_plus.Prelude.{
  ◌≡◌, refl, true, List, [], ◌∷◌, none, some, arith, bytes_eq, codes,
}
use claude_mnemonic_plus.GrpcServer.Version.{read_digits, read_number, negate, atoi}
use claude_mnemonic_plus.Reaper.{
  ProjectRow, days_of, retention_days, wrap_int64, retention, is_before_cutoff, is_purged,
  delete_rows, purge, purge_once,
}
use claude_mnemonic_plus.Reaper.Retention.{is_retained, retained, purge_once-retained}

program : Unit {0}
unfolding read_digits read_number negate atoi days_of retention_days wrap_int64 retention
    is_before_cutoff is_purged delete_rows purge purge_once is_retained retained bytes_eq
program = tt

-- One project that is there, one removed three days ago, and one removed now.
abbrev rows : List ProjectRow
rows =
    record { id = "a"; removed_at = none }
    ∷ record { id = "b"; removed_at = some 0 }
    ∷ record { id = "c"; removed_at = some 259200000000000 }
    ∷ []

purge_once-retained_example :
    purge_once true true (codes "2") 259200000000000 rows
    ≡ some (
        record { id = "a"; removed_at = none }
        ∷ record { id = "c"; removed_at = some 259200000000000 }
        ∷ [])
unfolding program
purge_once-retained_example = purge_once-retained (codes "2") 259200000000000 rows (omega arith)

default_kept : purge_once true true (codes "-1") 259200000000000 rows ≡ some rows
unfolding program
default_kept = refl

-- With so many days the duration overflows, and what was removed now is deleted.
retention_overflows :
    purge_once true true (codes "200000") 259200000000000 rows
    ≡ some (record { id = "a"; removed_at = none } ∷ [])
unfolding program
retention_overflows = refl
