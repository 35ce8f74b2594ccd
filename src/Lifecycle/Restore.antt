-- ===== src/Lifecycle/Restore.antt =====
-- restore.go: what each module is given when the daemon starts again.
use claude_mnemonic_plus.Prelude.{
  ℕ, zero, suc, String, Bool, true, false, Option, none, some, List, [], ◌∷◌, ◌++◌, if◌then◌else◌,
  ite, dec_str,
}
use claude_mnemonic_plus.Module.{
  Snapshotter, RestoreOutcome, restored, unsupported_version, restore_failed, restore_panicked,
}
use claude_mnemonic_plus.Lifecycle.Storage.{Storage, snapshot_bin, ManifestEntry}
use claude_mnemonic_plus.Lifecycle.Snapshot.{read_manifest}

-- The error that recoverRestore returns, if any.
pub data RestoreFailure : Type 0 where
  unsupported : RestoreFailure
  restore_error : String → RestoreFailure
  restore_panic : String → RestoreFailure

-- recoverRestore
unfoldable pub recover_restore : RestoreOutcome → Option RestoreFailure
recover_restore restored = none
recover_restore unsupported_version = some unsupported
recover_restore (restore_failed e) = some (restore_error e)
recover_restore (restore_panicked p) = some (restore_panic p)

-- A call of a module's Restore: its name, the data or nil, and the error.
pub record RestoreCall (Bytes : Type 0) : Type 0 where
  pub module_name : String
  pub input : Option Bytes
  pub failure : Option RestoreFailure

module _ {Bytes : Type 0} where
  abbrev pub restore_call : String → Snapshotter Bytes → Option Bytes → RestoreCall Bytes
  restore_call name snap input = record {
    module_name = name;
    input = input;
    failure = recover_restore (snap.restore input);
  }

  -- callRestoreNil
  unfoldable pub call_restore_nil : String → Snapshotter Bytes → List (RestoreCall Bytes)
  call_restore_nil name snap = restore_call name snap none ∷ []

  -- callRestoreWithData: a failure of any kind is followed by Restore(nil).
  unfoldable pub call_restore_with_data :
      String → Snapshotter Bytes → Bytes → List (RestoreCall Bytes)
  call_restore_with_data name snap b = elim (recover_restore (snap.restore (some b))) [
    | none ↦ restore_call name snap (some b) ∷ []
    | some _ ↦ restore_call name snap (some b) ∷ call_restore_nil name snap
  ]

  -- Restore(data) where a snapshot was read, Restore(nil) otherwise.
  unfoldable pub restore_module :
      String → Snapshotter Bytes → Option Bytes → List (RestoreCall Bytes)
  restore_module name snap none = call_restore_nil name snap
  restore_module name snap (some b) = call_restore_with_data name snap b

  -- The loop of both restore paths over the modules in registration order, given what is read for
  -- each name. `done i` says whether the context is done at the i-th round; the flag of the result
  -- says whether the loop was left for that.
  unfoldable pub restore_loop :
      (String → Option Bytes)
      → (ℕ → Bool)
      → ℕ
      → List (String × Snapshotter Bytes)
      → List (RestoreCall Bytes) × Bool
  restore_loop source done i [] = ([], false)
  restore_loop source done i ((name, snap) ∷ ss) =
      let rest = restore_loop source done (suc i) ss in
      if done i then ([], true) else (restore_module name snap (source name) ++ rest.0, rest.1)

-- `entryByName[name]`: the last entry of that name, as in the map that the loop fills.
unfoldable pub entry_by_name : String → List ManifestEntry → Option ManifestEntry
entry_by_name n [] = none
entry_by_name n (e ∷ es) = elim (entry_by_name n es) [
  | some later ↦ some later
  | none ↦ ite (dec_str e.name n) (some e) none
]

-- Whether a name is among those of the snapshot files that the glob found.
unfoldable pub is_listed : String → List String → Bool
is_listed n [] = false
is_listed n (x ∷ xs) = ite (dec_str x n) true (is_listed n xs)

module _ (s : Storage) where
  open s use {Disk, Bytes, read_file, glob_snapshots}

  -- What Restore reads for a module by the manifest: its entry's file, if it can be read.
  unfoldable pub from_manifest : List ManifestEntry → Disk → String → Option Bytes
  from_manifest entries d n = elim (entry_by_name n entries) [
    | none ↦ none
    | some e ↦ read_file e.file d
  ]

  -- What restoreFromFileScan reads for a module.
  unfoldable pub from_file_scan : Disk → String → Option Bytes
  from_file_scan d n = if is_listed n (glob_snapshots d) then read_file (snapshot_bin n) d else none

  -- Restore: by the manifest, or by a scan of the files where it cannot be read.
  unfoldable pub restore :
      List (String × Snapshotter Bytes) → (ℕ → Bool) → Disk → List (RestoreCall Bytes) × Bool
  restore ss done d = elim (read_manifest s d) [
    | none ↦ restore_loop (from_file_scan d) done zero ss
    | some m ↦ restore_loop (from_manifest m.modules d) done zero ss
  ]
