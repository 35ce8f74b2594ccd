-- ===== src/Lifecycle/Snapshot.antt =====
-- snapshot.go and manifest.go: SnapshotAll writes a file for each module, then the manifest.
use claude_mnemonic_plus.Prelude.{
  ℕ, zero, suc, String, Bool, true, false, Option, none, some, List, [], ◌∷◌, ◌++◌, length,
  get_elem?, ◌==◌, if◌then◌else◌,
}
use claude_mnemonic_plus.Module.{
  Snapshotter, SnapshotOutcome, snapshotted, snapshot_failed, snapshot_panicked,
}
use claude_mnemonic_plus.Lifecycle.Storage.{
  Storage, manifest_json, snapshot_bin, ManifestEntry, Manifest, write_file_atomic,
}

-- recoverSnapshot: the data, or none for an error or a panic.
unfoldable pub recover_snapshot : {B : Type 0} → SnapshotOutcome B → Option B
recover_snapshot (snapshotted b) = some b
recover_snapshot (snapshot_failed e) = none
recover_snapshot (snapshot_panicked p) = none

-- How SnapshotAll ends.
pub data SnapshotResult : Type 0 where
  complete : SnapshotResult
  context_done : SnapshotResult
  manifest_failed : SnapshotResult

module _ (s : Storage) where
  open s use {
    Disk, Bytes, size, envelope_version, encode_manifest, decode_manifest, read_file, mkdir_all,
  }

  abbrev pub entry_of : String → Bytes → ManifestEntry
  entry_of name b = record {
    name = name;
    file = snapshot_bin name;
    size_bytes = size b;
    declared_version = envelope_version b;
  }

  -- The write of a module's file, where its directory could be created.
  unfoldable pub write_snapshot : String → Bytes → Disk × Bool → Disk × Option ManifestEntry
  write_snapshot name b (d, false) = (d, none)
  write_snapshot name b (d, true) =
      let (d', ok) = write_file_atomic s (snapshot_bin name) b d in
      (d', if ok then some (entry_of name b) else none)

  -- The part of the loop body behind the call of Snapshot: skip empty data, create the directory,
  -- write the file.
  unfoldable pub persist : String → Bytes → Disk → Disk × Option ManifestEntry
  persist name b d = if size b == 0 then (d, none) else write_snapshot name b (mkdir_all name d)

  -- The loop body of SnapshotAll.
  unfoldable pub snapshot_one : String → Snapshotter Bytes → Disk → Disk × Option ManifestEntry
  snapshot_one name snap d = elim (recover_snapshot snap.snapshot) [
    | none ↦ (d, none)
    | some b ↦ persist name b d
  ]

  abbrev pub append_some : List ManifestEntry → Option ManifestEntry → List ManifestEntry
  append_some entries none = entries
  append_some entries (some e) = entries ++ e ∷ []

  -- The loop of SnapshotAll over the positions below an index, from the last one down. `done i`
  -- says whether the context is done when position i is reached; the flag of the result says
  -- whether the loop was left for that.
  unfoldable pub snapshot_below :
      List (String × Snapshotter Bytes)
      → (ℕ → Bool)
      → ℕ
      → Disk
      → List ManifestEntry
      → Disk × List ManifestEntry × Bool
  snapshot_below ss done zero d entries = (d, entries, false)
  snapshot_below ss done (suc i) d entries =
      if done i then (d, entries, true) else elim (get_elem? ss i) [
        | none ↦ (d, entries, false)
        | some se ↦
            let (d', e) = snapshot_one se.0 se.1 d in
            snapshot_below ss done i d' (append_some entries e)
      ]

  abbrev pub manifest_of : ℕ → String → List ManifestEntry → Manifest
  manifest_of now version entries = record {
    schema_version = 1;
    created_at = now;
    daemon_version = version;
    modules = entries;
  }

  -- writeManifest, with the time and the daemon's version.
  unfoldable pub write_manifest : ℕ → String → List ManifestEntry → Disk → Disk × Bool
  write_manifest now version entries d =
      let (d', made) = mkdir_all "" d in
      let written =
        write_file_atomic s manifest_json (encode_manifest (manifest_of now version entries)) d' in
      if made then written else (d', false)

  -- SnapshotAll
  unfoldable pub snapshot_all :
      List (String × Snapshotter Bytes)
      → (ℕ → Bool)
      → ℕ
      → String
      → Disk
      → Disk × List ManifestEntry × SnapshotResult
  snapshot_all ss done now version d =
      let (d', entries, stopped) = snapshot_below ss done (length ss) d [] in
      let (d'', ok) = write_manifest now version entries d' in
      (d'', entries, if stopped then context_done else (if ok then complete else manifest_failed))

  -- readManifest; none for a file that is missing or malformed
  unfoldable pub read_manifest : Disk → Option Manifest
  read_manifest d = elim (read_file manifest_json d) [ none ↦ none | some b ↦ decode_manifest b ]
