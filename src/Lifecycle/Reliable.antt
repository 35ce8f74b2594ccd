-- ===== src/Lifecycle/Reliable.antt =====
-- SnapshotAll and Restore of internal/module/lifecycle on a disk whose operations succeed.
use claude_mnemonic_plus.Prelude.{
  ℕ, zero, suc, ◌≤◌, ◌≡◌, ◌≢◌, refl, sym, ap, ◌∙◌, inl, inr, String, Bool, true, false, Option,
  none, some, List, [], ◌∷◌, ◌++◌, ite, arith, length, get_elem?, get_elem?-lt, ◌==◌, if◌then◌else◌,
  Option-cases, All, All-of_get_elem?, dec_str, ℕ_discrete, ltb,
}
use claude_mnemonic_plus.Module.{Snapshotter}
use claude_mnemonic_plus.Lifecycle.Storage.{
  Storage, FilePath, dir_of, manifest_json, snapshot_bin, tmp_of, ManifestEntry, rename_into,
  write_file_atomic,
}
use claude_mnemonic_plus.Lifecycle.Snapshot.{
  recover_snapshot, entry_of, write_snapshot, persist, snapshot_one, append_some, snapshot_below,
  write_manifest, manifest_of, snapshot_all, complete,
}
use claude_mnemonic_plus.Lifecycle.Restore.{entry_by_name, RestoreCall, restore}
use claude_mnemonic_plus.Lifecycle.Stored.{Distinct}
use claude_mnemonic_plus.Lifecycle.RoundTrip.{
  owed_calls, persisted, expected_calls, restore-snapshot_all,
}

-- The manifest has an entry of a name.
unfoldable pub named : String → List ManifestEntry → Bool
named n [] = false
named n (e ∷ es) = ite (dec_str e.name n) true (named n es)

abbrev pub is_some {ℓ} : {A : Type ℓ} → Option A → Bool
is_some none = false
is_some (some a) = true

get_elem?-none {ℓ} :
    {A : Type ℓ} (xs : List A) (i : ℕ) → get_elem? xs i ≡ none → ¬ (suc i ≤ length xs)
get_elem?-none [] i h lt = omega arith
get_elem?-none (x ∷ xs) zero h lt = cc
get_elem?-none (x ∷ xs) (suc i) h lt = get_elem?-none xs i h (omega arith)

named_lem : (n : String) (es : List ManifestEntry) → is_some (entry_by_name n es) ≡ named n es
unfolding named entry_by_name
named_lem n [] = refl
named_lem n (e ∷ es) = ground (arith, named_lem n es)

module _ (s : Storage) where
  open s use {
    Disk, Bytes, size, read_file, write_file, rename, mkdir_all, read-write, encode_manifest,
  }

  named-append_some :
      (n : String) (es : List ManifestEntry) (o : Option ManifestEntry)
      → named n (append_some s es o) ≡ (
          if named n es
          then true
          else elim o [ none ↦ false | some e ↦ ite (dec_str e.name n) true false ])
  unfolding named
  named-append_some n es none = ground arith
  named-append_some n [] (some e) = ground arith
  named-append_some n (x ∷ es) (some e) = ground (arith, named-append_some n es (some e))

  -- A directory can be made, a file can be written where its directory is there, and a file that
  -- is there can be renamed within its directory.
  pub record IsReliable : Type 0 where
    pub has_dir : String → Disk → Bool
    pub makes : (n : String) (d : Disk) → (mkdir_all n d).1 ≡ true
    pub makes_dir : (n : String) (d : Disk) → has_dir n (mkdir_all n d).0 ≡ true
    pub writes :
        (p : FilePath) (b : Bytes) (d : Disk)
        → has_dir (dir_of p) d ≡ true
        → (write_file p b d).1 ≡ true
    pub renames :
        (p q : FilePath) (b : Bytes) (d : Disk)
        → dir_of p ≡ dir_of q
        → read_file p d ≡ some b
        → (rename p q d).1 ≡ true

  -- The data that a module asks to be kept: what Snapshot returned, if it is not empty.
  abbrev pub kept_data : Snapshotter Bytes → Option Bytes
  kept_data snap = elim (recover_snapshot snap.snapshot) [
    | none ↦ none
    | some b ↦ if size b == 0 then none else some b
  ]

  -- The calls of Restore that give every module the data it asked to be kept, and nil to the others.
  unfoldable pub faithful_calls : List (String × Snapshotter Bytes) → List (RestoreCall Bytes)
  faithful_calls [] = []
  faithful_calls ((n, snap) ∷ ss) = owed_calls n snap (kept_data snap) ++ faithful_calls ss

  module _ (rel : IsReliable) where
    write_file_atomic_succeeds :
        (p : FilePath) (b : Bytes) (d : Disk)
        → rel.has_dir (dir_of p) d ≡ true
        → (write_file_atomic s p b d).1 ≡ true
    unfolding write_file_atomic rename_into
    write_file_atomic_succeeds p b d dir =
        let w = rel.writes (tmp_of p) b d dir in
        let there = read-write (tmp_of p) b d w in
        let r = rel.renames (tmp_of p) p b (write_file (tmp_of p) b d).0 refl there in ground arith

    snapshot_one_entry :
        (n : String) (snap : Snapshotter Bytes) (d : Disk)
        → (snapshot_one s n snap d).1
          ≡ elim (kept_data snap) [ none ↦ none | some b ↦ some (entry_of s n b) ]
    unfolding snapshot_one persist write_snapshot
    snapshot_one_entry n snap d = elim (Option-cases (recover_snapshot snap.snapshot)) [
      | inl failed ↦ ground arith
      | inr (b, taken) ↦
          let m = rel.makes n d in
          let w =
            write_file_atomic_succeeds (snapshot_bin n) b (mkdir_all n d).0 (rel.makes_dir n d) in
          ground arith
    ]

    module _ (ss : List (String × Snapshotter Bytes)) (distinct : Distinct s ss) where
      snapshot_below-goes_on :
          (i : ℕ) (d : Disk) (es : List ManifestEntry)
          → (snapshot_below s ss (λ i. false) i d es).2 ≡ false
      unfolding snapshot_below
      snapshot_below-goes_on zero d es = refl
      snapshot_below-goes_on (suc i) d es = elim (Option-cases (get_elem? ss i)) [
        | inl out ↦ ground arith
        | inr (x, at) ↦ ground (
          arith,
          snapshot_below-goes_on i (snapshot_one s x.0 x.1 d).0
              (append_some s es (snapshot_one s x.0 x.1 d).1),
        )
      ]

      module _ (p : ℕ) (x : String × Snapshotter Bytes) (at : get_elem? ss p ≡ some x) where
        named_step :
            (i : ℕ) (y : String × Snapshotter Bytes) (d : Disk) (es : List ManifestEntry)
            → get_elem? ss i ≡ some y
            → named x.0 (append_some s es (snapshot_one s y.0 y.1 d).1) ≡ (
                if named x.0 es then true else ite (ℕ_discrete i p) (is_some (kept_data x.1)) false)
        named_step i y d es here =
            let one = snapshot_one_entry y.0 y.1 d in
            let app = named-append_some x.0 es (snapshot_one s y.0 y.1 d).1 in
            elim (ℕ_discrete i p) [
              | yes e ↦
                  let same : some y ≡ some x = sym here ∙ ap (get_elem? ss) e ∙ at in
                  let q : y ≡ x = cc in
                  let name : y.0 ≡ x.0 = ap (λ z. z.0) q in
                  let kept_same : kept_data y.1 ≡ kept_data x.1 = ap (λ z. kept_data z.1) q in
                  elim (Option-cases (kept_data y.1)) [
                    | inl nothing ↦ ground arith
                    | inr (b, kept) ↦ ground arith
                  ]
              | no ne ↦
                  let apart : y.0 ≢ x.0 = λ q. ne (distinct i p y x here at q) in
                  elim (Option-cases (kept_data y.1)) [
                    | inl nothing ↦ ground arith
                    | inr (b, kept) ↦ ground arith
                  ]
            ]

        named-snapshot_below :
            (i : ℕ) (d : Disk) (es : List ManifestEntry)
            → i ≤ length ss
            → named x.0 (snapshot_below s ss (λ i. false) i d es).1
              ≡ (if named x.0 es then true else if ltb p i then is_some (kept_data x.1) else false)
        unfolding snapshot_below
        named-snapshot_below zero d es h = ground arith
        named-snapshot_below (suc i) d es h = elim (Option-cases (get_elem? ss i)) [
          | inl out ↦ absurd (get_elem?-none ss i out h)
          | inr (y, here) ↦
              let d' = (snapshot_one s y.0 y.1 d).0 in
              let es' = append_some s es (snapshot_one s y.0 y.1 d).1 in
              let ih = named-snapshot_below i d' es' (omega arith) in
              ground (arith, named_step i y d es here)
        ]

      module _ (now : ℕ) (version : String) (d : Disk) where
        abbrev manifest : List ManifestEntry
        manifest = (snapshot_all s ss (λ i. false) now version d).1

        persisted_kept :
            (i : ℕ) (x : String × Snapshotter Bytes)
            → get_elem? ss i ≡ some x
            → persisted s manifest x.0 x.1 ≡ kept_data x.1
        unfolding snapshot_all named
        persisted_kept i x at =
            let lt = get_elem?-lt ss i at in
            let listed = named-snapshot_below i x at (length ss) d [] (omega arith) in
            let by_name = named_lem x.0 manifest in
            elim (Option-cases (recover_snapshot x.1.snapshot)) [
              | inl failed ↦ ground arith
              | inr (b, taken) ↦ ground arith
            ]

        expected_calls_faithful :
            (xs : List (String × Snapshotter Bytes))
            → All (λ x. persisted s manifest x.0 x.1 ≡ kept_data x.1) xs
            → expected_calls s manifest xs ≡ faithful_calls xs
        unfolding expected_calls faithful_calls
        expected_calls_faithful [] h = refl
        expected_calls_faithful ((n, snap) ∷ xs) h =
            ground (arith, h.0, expected_calls_faithful xs h.1)

        snapshot_all-complete : (snapshot_all s ss (λ i. false) now version d).2 ≡ complete
        unfolding snapshot_all write_manifest
        snapshot_all-complete =
            let on = snapshot_below-goes_on (length ss) d [] in
            let swept = (snapshot_below s ss (λ i. false) (length ss) d []).0 in
            let m = rel.makes "" swept in
            let w =
              write_file_atomic_succeeds manifest_json
                (encode_manifest (manifest_of s now version manifest)) (mkdir_all "" swept).0
                (rel.makes_dir "" swept) in
            ground arith

        -- For snapshotters with distinct names, and a disk on which a directory can be made, a
        -- file can be written where its directory is there, and a file that is there can be
        -- renamed within its directory: SnapshotAll, not cancelled, completes, and Restore on the
        -- disk it leaves, not cancelled, calls the modules' Restore in registration order, each
        -- with the data that the module's Snapshot had returned where it returned non-empty data,
        -- and with nil otherwise; after a failure with data it calls Restore(nil).
        pub restore-snapshot_all_reliable :
            ((snapshot_all s ss (λ i. false) now version d).2 ≡ complete)
            × (restore s ss (λ i. false) (snapshot_all s ss (λ i. false) now version d).0
                ≡ (faithful_calls ss, false))
        restore-snapshot_all_reliable = (
          snapshot_all-complete,
          restore-snapshot_all s ss distinct (λ i. false) now version d snapshot_all-complete
              ∙ ap (λ l. (l, false))
                  (expected_calls_faithful ss (All-of_get_elem? _ ss persisted_kept)),
        )
