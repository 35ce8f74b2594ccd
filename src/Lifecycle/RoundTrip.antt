-- ===== src/Lifecycle/RoundTrip.antt =====
-- SnapshotAll of internal/module/lifecycle/snapshot.go followed by Restore of restore.go.
use claude_mnemonic_plus.Prelude.{
  ℕ, zero, suc, ◌≡◌, ◌≢◌, refl, sym, ap, ◌∙◌, inl, inr, String, Bool, true, false, Option, none,
  some, List, [], ◌∷◌, ◌++◌, arith, length, get_elem?, Option-cases, All, All-of_get_elem?,
}
use claude_mnemonic_plus.Module.{Snapshotter, restored}
use claude_mnemonic_plus.Lifecycle.Storage.{
  Storage, FilePath, manifest_json, snapshot_bin, ManifestEntry, IsFinal, write_file_atomic_ok,
  write_file_atomic_ne,
}
use claude_mnemonic_plus.Lifecycle.Snapshot.{
  recover_snapshot, snapshot_below, write_manifest, manifest_of, snapshot_all, read_manifest,
  complete,
}
use claude_mnemonic_plus.Lifecycle.Restore.{
  entry_by_name, from_manifest, RestoreCall, restore_call, call_restore_nil, call_restore_with_data,
  recover_restore, restore_module, restore_loop, restore,
}
use claude_mnemonic_plus.Lifecycle.Stored.{
  Distinct, Stored, snapshot_below-Stored, entry_by_name_found,
}

-- The calls that a module is owed: Restore with the data that is there for it, followed by
-- Restore(nil) where that returned an error or panicked, and Restore(nil) where there is no data.
module _ {B : Type 0} where
  unfoldable pub owed_calls : String → Snapshotter B → Option B → List (RestoreCall B)
  owed_calls n snap none = restore_call n snap none ∷ []
  owed_calls n snap (some b) = elim (snap.restore (some b)) [
    | restored ↦ restore_call n snap (some b) ∷ []
    | _ ↦ restore_call n snap (some b) ∷ restore_call n snap none ∷ []
  ]

  restore_module-owed_calls :
      (n : String) (snap : Snapshotter B) (o : Option B)
      → restore_module n snap o ≡ owed_calls n snap o
  unfolding restore_module call_restore_nil call_restore_with_data recover_restore owed_calls
  restore_module-owed_calls n snap none = refl
  restore_module-owed_calls n snap (some b) = ground arith

module _ (s : Storage) where
  open s use {
    Disk, Bytes, read_file, mkdir_all, read-mkdir_all, size, decode-encode, encode_manifest,
    decode_manifest,
  }

  module _ (now : ℕ) (version : String) (entries : List ManifestEntry) (d : Disk) where
    write_manifest_ne :
        (q : FilePath)
        → IsFinal q
        → q ≢ manifest_json
        → read_file q (write_manifest s now version entries d).0 ≡ read_file q d
    unfolding write_manifest
    write_manifest_ne q g ne =
        let b = encode_manifest (manifest_of s now version entries) in
        let w = write_file_atomic_ne s manifest_json tt (mkdir_all "" d).0 b q g ne in
        let m = read-mkdir_all "" q d in ground arith

    -- If writeManifest succeeds, readManifest returns the manifest that was written.
    pub read_manifest-write_manifest :
        (write_manifest s now version entries d).1 ≡ true
        → read_manifest s (write_manifest s now version entries d).0
          ≡ some (manifest_of s now version entries)
    unfolding write_manifest read_manifest
    read_manifest-write_manifest h =
        let b = encode_manifest (manifest_of s now version entries) in
        let made : (mkdir_all "" d).1 ≡ true = ground arith in
        let w = write_file_atomic_ok s manifest_json tt (mkdir_all "" d).0 b (ground arith) in
        ground (arith, decode-encode (manifest_of s now version entries))

  -- What a restart should give each module: the data that it returned, if the manifest lists it,
  -- and nil otherwise.
  abbrev pub persisted : List ManifestEntry → String → Snapshotter Bytes → Option Bytes
  persisted entries n snap = elim (entry_by_name n entries) [
    | none ↦ none
    | some e ↦ recover_snapshot snap.snapshot
  ]

  unfoldable pub expected_calls :
      List ManifestEntry → List (String × Snapshotter Bytes) → List (RestoreCall Bytes)
  expected_calls entries [] = []
  expected_calls entries ((n, snap) ∷ ss) =
      owed_calls n snap (persisted entries n snap) ++ expected_calls entries ss

  restore_loop_expected :
      (source : String → Option Bytes) (entries : List ManifestEntry) (k : ℕ)
      (ss : List (String × Snapshotter Bytes))
      → All (λ x. source x.0 ≡ persisted entries x.0 x.1) ss
      → restore_loop source (λ i. false) k ss ≡ (expected_calls entries ss, false)
  unfolding restore_loop expected_calls
  restore_loop_expected source entries k [] h = refl
  restore_loop_expected source entries k ((n, snap) ∷ ss) h =
      let ih = restore_loop_expected source entries (suc k) ss h.1 in
      ground (arith, h.0, ih, restore_module-owed_calls n snap (persisted entries n snap))

  module _ (ss : List (String × Snapshotter Bytes)) (distinct : Distinct s ss) (done : ℕ → Bool)
      (now : ℕ) (version : String) (d : Disk) where
    abbrev swept : Disk
    swept = (snapshot_below s ss done (length ss) d []).0

    abbrev entries : List ManifestEntry
    entries = (snapshot_below s ss done (length ss) d []).1

    abbrev final : Disk
    final = (write_manifest s now version entries swept).0

    -- Each module's data is read as it was returned.
    from_manifest-persisted :
        (i : ℕ) (x : String × Snapshotter Bytes)
        → get_elem? ss i ≡ some x
        → from_manifest s entries final x.0 ≡ persisted entries x.0 x.1
    unfolding from_manifest
    from_manifest-persisted i x at = elim (Option-cases (entry_by_name x.0 entries)) [
      | inl absent ↦ ground arith
      | inr (e, present) ↦
          let all = snapshot_below-Stored s ss distinct done (length ss) d [] tt in
          let (st, n) = entry_by_name_found s (Stored s ss zero swept) x.0 entries e all present in
          let same = distinct st.position i (e.name, st.snap) x st.listed at n in
          let l = st.listed in
          let owner : some (e.name, st.snap) ≡ some x = sym l ∙ ap (get_elem? ss) same ∙ at in
          let file : e.file ≡ snapshot_bin e.name = ap (λ y. y.file) st.exact in
          let kept =
            write_manifest_ne now version entries swept (snapshot_bin e.name) tt (λ p. cc) in
          let t = st.taken in let r = st.readable in ground arith
    ]

    -- For snapshotters with distinct names: if SnapshotAll completes, then Restore on the disk it
    -- leaves, not cancelled, calls the modules' Restore in registration order, each with the data
    -- that the module itself had returned where the manifest lists it, and with nil where it does
    -- not; after a failure with data it calls Restore(nil).
    pub restore-snapshot_all :
        (snapshot_all s ss done now version d).2 ≡ complete
        → restore s ss (λ i. false) (snapshot_all s ss done now version d).0
          ≡ (expected_calls (snapshot_all s ss done now version d).1 ss, false)
    unfolding snapshot_all restore
    restore-snapshot_all h =
        let ok : (write_manifest s now version entries swept).1 ≡ true = ground arith in
        let m = read_manifest-write_manifest now version entries swept ok in
        rw (m, restore)
          (restore_loop_expected (from_manifest s entries final) entries zero ss
            (All-of_get_elem? _ ss from_manifest-persisted))
