-- ===== src/Lifecycle/Tests.antt =====
-- Startup, shutdown, snapshot and restart of concrete modules, and the theorems at them.
use claude_mnemonic_plus.Prelude.{
  ℕ, zero, suc, ◌≡◌, refl, sym, ap, ◌∙◌, ite, String, true, false, Option, none, some, List, [],
  ◌∷◌, ◌++◌, map, reverse, get_elem?, lookup, insert, delete, dec_str, Bool-cases,
}
use claude_mnemonic_plus.Module.{
  ModuleDeps, Outcome, returned, failed, panicked, Snapshotter, snapshotted, snapshot_failed,
  restored, unsupported_version,
}
use claude_mnemonic_plus.Registry.{Registry, ModuleEntry, discover}
use claude_mnemonic_plus.Lifecycle.{
  error_returned, panic_recovered, recover, init_call, shutdown_call, shutdown_below,
  shutdown_range, shutdown_all, start_from, start,
}
use claude_mnemonic_plus.Lifecycle.Order.{start_failed, shutdown_of, init_of}
use claude_mnemonic_plus.Lifecycle.Storage.{snapshot_bin, rename_into, write_file_atomic, Storage}
use claude_mnemonic_plus.Lifecycle.Snapshot.{
  complete, recover_snapshot, write_manifest, read_manifest, snapshot_all, snapshot_below,
  snapshot_one, write_snapshot, persist,
}
use claude_mnemonic_plus.Lifecycle.Restore.{
  restore, restore_loop, restore_module, call_restore_nil, call_restore_with_data, recover_restore,
  entry_by_name, from_manifest, from_file_scan, is_listed, unsupported,
}
use claude_mnemonic_plus.Lifecycle.Reliable.{
  IsReliable, faithful_calls, restore-snapshot_all_reliable,
}
use claude_mnemonic_plus.Lifecycle.Stored.{Distinct}
use claude_mnemonic_plus.Lifecycle.RoundTrip.{owed_calls, expected_calls, restore-snapshot_all}
use claude_mnemonic_plus.Lifecycle.Disks.{
  move_present, dec_path, store, store_there, has_directory, has_directory-make_directory, Content,
  raw, Files, memory_storage, move, module_files,
}

program : Unit {0}
unfolding recover shutdown_below shutdown_range shutdown_all start_from start rename_into
    write_file_atomic recover_snapshot write_manifest read_manifest snapshot_all snapshot_below
    snapshot_one write_snapshot persist restore restore_loop restore_module call_restore_nil
    call_restore_with_data recover_restore entry_by_name from_manifest from_file_scan is_listed
    expected_calls owed_calls dec_path store has_directory move module_files lookup insert delete
    dec_str Bool-cases
program = tt

abbrev engram : String → Outcome → Outcome → ModuleEntry Content
engram n i s = discover (record {
  name = n;
  init = λ d. i;
  shutdown = s;
  snapshotter = none;
  lifecycle = none;
  removal_aware = none;
  tool_provider = none;
  proxy_tool_provider = none;
})

abbrev deps : String → ModuleDeps
deps n = record { config = "{}"; storage_dir = n }

abbrev good : ModuleEntry Content
good = engram "good" returned returned

abbrev grumpy : ModuleEntry Content
grumpy = engram "grumpy" returned (panicked "close of nil channel")

abbrev bad : ModuleEntry Content
bad = engram "bad" (failed "no config") returned

abbrev registry : List (ModuleEntry Content) → Registry Content
registry es = record { entries = es; tool_index = []; proxy_idx = none; frozen = true }

failed_start : start deps (registry (good ∷ grumpy ∷ bad ∷ good ∷ [])) ≡ (
  init_call "good"
      ∷ init_call "grumpy"
      ∷ init_call "bad"
      ∷ shutdown_call "grumpy" (some (panic_recovered "close of nil channel"))
      ∷ shutdown_call "good" none
      ∷ [],
  some ("bad", error_returned "no config"),
)
unfolding program
failed_start = refl

start_failed_example : start deps (registry (good ∷ grumpy ∷ bad ∷ good ∷ [])) ≡ (
  map init_of (good ∷ grumpy ∷ []) ++ init_of bad ∷ map shutdown_of (reverse (good ∷ grumpy ∷ [])),
  some ("bad", error_returned "no config"),
)
unfolding program
start_failed_example =
    start_failed deps (registry (good ∷ grumpy ∷ bad ∷ good ∷ [])) (good ∷ grumpy ∷ []) (good ∷ [])
      bad {err = error_returned "no config"} refl (refl, (refl, tt)) refl

-- A file system on which every rename fails.
abbrev stuck : Storage
stuck = record memory_storage {
  rename = λ p q d. (d, false);
  read-rename = λ p q d h. cc;
  read-rename_ne = λ p q r d a b. refl;
  read-rename_failed = λ p q r d h. refl;
}

abbrev old : Files
old = (("", tt) ∷ ("a", tt) ∷ [], (snapshot_bin "a", raw 1 1) ∷ [])

-- One module takes its data back, one refuses it, and one has none to give.
abbrev snapshotters : List (String × Snapshotter Content)
snapshotters =
    ("a", record { snapshot = snapshotted (raw 3 1); restore = λ b. restored })
    ∷ (
      "b",
      record {
        snapshot = snapshotted (raw 4 2);
        restore = λ b. elim b [ none ↦ restored | some _ ↦ unsupported_version ];
      },
    )
    ∷ ("c", record { snapshot = snapshot_failed "busy"; restore = λ b. restored })
    ∷ []

abbrev position : Option (String × Snapshotter Content) → ℕ
position none = 3
position (some x) = ite (dec_str x.0 "a") 0 (ite (dec_str x.0 "b") 1 2)

position-snapshotters :
    (i : ℕ) (x : String × Snapshotter Content)
    → get_elem? snapshotters i ≡ some x
    → position (some x) ≡ i
unfolding program
position-snapshotters zero x h = sym (ap position h)
position-snapshotters (suc zero) x h = sym (ap position h)
position-snapshotters (suc (suc zero)) x h = sym (ap position h)
position-snapshotters (suc (suc (suc i))) x h = cc

snapshotters-Distinct : Distinct memory_storage snapshotters
snapshotters-Distinct i j x y a b e =
    sym (position-snapshotters i x a)
    ∙ ap (λ n. ite (dec_str n "a") 0 (ite (dec_str n "b") 1 2)) e
    ∙ position-snapshotters j y b

restarted :
    (restore memory_storage snapshotters
      (λ i. false)
      (snapshot_all memory_storage snapshotters (λ i. false) 7 "v1" ([], [])).0).0
    ≡ record { module_name = "a"; input = some (raw 3 1); failure = none }
      ∷ record { module_name = "b"; input = some (raw 4 2); failure = some unsupported }
      ∷ record { module_name = "b"; input = none; failure = none }
      ∷ record { module_name = "c"; input = none; failure = none }
      ∷ []
unfolding program
restarted = refl

restore-snapshot_all_example :
    restore memory_storage snapshotters
      (λ i. false)
      (snapshot_all memory_storage snapshotters (λ i. false) 7 "v1" ([], [])).0
    ≡ (
      expected_calls memory_storage
          (snapshot_all memory_storage snapshotters (λ i. false) 7 "v1" ([], [])).1
          snapshotters,
      false,
    )
unfolding program
restore-snapshot_all_example =
    restore-snapshot_all memory_storage snapshotters snapshotters-Distinct (λ i. false) 7 "v1"
      ([], []) refl

memory_storage-IsReliable : IsReliable memory_storage
memory_storage-IsReliable = record {
  makes = λ n d. refl;
  has_dir = has_directory;
  makes_dir = has_directory-make_directory;
  writes = store_there;
  renames = move_present;
}

restore-snapshot_all_reliable_example :
    ((snapshot_all memory_storage snapshotters (λ i. false) 7 "v1" ([], [])).2 ≡ complete)
    × (restore memory_storage snapshotters
          (λ i. false)
          (snapshot_all memory_storage snapshotters (λ i. false) 7 "v1" ([], [])).0
        ≡ (faithful_calls memory_storage snapshotters, false))
restore-snapshot_all_reliable_example =
    restore-snapshot_all_reliable memory_storage memory_storage-IsReliable snapshotters
      snapshotters-Distinct 7 "v1" ([], [])

-- A file in a directory that is not there is not written.
no_directory : (store (snapshot_bin "a") (raw 1 1) ([], [])).1 ≡ false
unfolding program
no_directory = refl
