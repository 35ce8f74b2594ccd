-- ===== src/Lifecycle/Stored.antt =====
-- The loop of SnapshotAll in internal/module/lifecycle/snapshot.go, and what an entry of the
-- manifest stands for.
use claude_mnemonic_plus.Prelude.{
  ℕ, zero, suc, ◌≤◌, ◌≡◌, ◌≢◌, refl, sym, ap, ◌∙◌, inl, inr, String, Bool, true, false, Option,
  none, some, List, [], ◌∷◌, arith, get_elem?, ◌==◌, Bool-cases, Option-cases, subst, All,
  All-append, All-imp, dec_str,
}
use claude_mnemonic_plus.Module.{Snapshotter}
use claude_mnemonic_plus.Lifecycle.Storage.{
  Storage, FilePath, snapshot_bin, ManifestEntry, IsFinal, write_file_atomic_ok,
  write_file_atomic_ne,
}
use claude_mnemonic_plus.Lifecycle.Snapshot.{
  recover_snapshot, entry_of, write_snapshot, persist, snapshot_one, append_some, snapshot_below,
}
use claude_mnemonic_plus.Lifecycle.Restore.{entry_by_name}

module _ (s : Storage) where
  open s use {
    Disk, Bytes, read_file, mkdir_all, read-mkdir_all, size, decode-encode, encode_manifest,
    decode_manifest,
  }

  write_snapshot_ne :
      (n : String) (b : Bytes) (d : Disk) (made : Bool) (q : FilePath)
      → IsFinal q
      → q ≢ snapshot_bin n
      → read_file q (write_snapshot s n b (d, made)).0 ≡ read_file q d
  unfolding write_snapshot
  write_snapshot_ne n b d false q g ne = refl
  write_snapshot_ne n b d true q g ne = write_file_atomic_ne s (snapshot_bin n) tt d b q g ne

  write_snapshot-some :
      (n : String) (b : Bytes) (d : Disk) (made : Bool) (e : ManifestEntry)
      → (write_snapshot s n b (d, made)).1 ≡ some e
      → (e ≡ entry_of s n b)
        × (read_file (snapshot_bin n) (write_snapshot s n b (d, made)).0 ≡ some b)
  unfolding write_snapshot
  write_snapshot-some n b d false e h = cc
  write_snapshot-some n b d true e h =
      (ground arith, write_file_atomic_ok s (snapshot_bin n) tt d b (ground arith))

  -- The loop body leaves every other module's file and the manifest alone.
  snapshot_one_ne :
      (n : String) (snap : Snapshotter Bytes) (d : Disk) (q : FilePath)
      → IsFinal q
      → q ≢ snapshot_bin n
      → read_file q (snapshot_one s n snap d).0 ≡ read_file q d
  unfolding snapshot_one persist
  snapshot_one_ne n snap d q g ne = elim (Option-cases (recover_snapshot snap.snapshot)) [
    | inl failed ↦ ground arith
    | inr (b, taken) ↦ elim (Bool-cases (size b == 0)) [
      | inl empty ↦ ground arith
      | inr full ↦
          let w = write_snapshot_ne n b (mkdir_all n d).0 (mkdir_all n d).1 q g ne in
          let m = read-mkdir_all n q d in ground arith
    ]
  ]

  -- An entry of the manifest stands for data that the module returned and that can be read.
  snapshot_one-some :
      (n : String) (snap : Snapshotter Bytes) (d : Disk) (e : ManifestEntry)
      → (snapshot_one s n snap d).1 ≡ some e
      → (b : Bytes) × (recover_snapshot snap.snapshot ≡ some b)
        × (e ≡ entry_of s n b)
        × (read_file (snapshot_bin n) (snapshot_one s n snap d).0 ≡ some b)
  unfolding snapshot_one persist
  snapshot_one-some n snap d e h = elim (Option-cases (recover_snapshot snap.snapshot)) [
    | inl failed ↦ ground arith
    | inr (b, taken) ↦ elim (Bool-cases (size b == 0)) [
      | inl empty ↦ ground arith
      | inr full ↦
          let w = write_snapshot-some n b (mkdir_all n d).0 (mkdir_all n d).1 e (ground arith) in
          (b, taken, w.0, ground arith)
    ]
  ]

  module _ (ss : List (String × Snapshotter Bytes)) where
    -- No two modules have the same name.
    abbrev pub Distinct : Type 0
    Distinct =
        (i j : ℕ) (x y : String × Snapshotter Bytes)
        → get_elem? ss i ≡ some x
        → get_elem? ss j ≡ some y
        → x.0 ≡ y.0
        → i ≡ j

    -- An entry that the loop made at a position from `k` on, and whose data the disk holds.
    pub record Stored (k : ℕ) (d : Disk) (e : ManifestEntry) : Type 0 where
      pub position : ℕ
      pub snap : Snapshotter Bytes
      pub stored : Bytes
      pub reached : k ≤ position
      pub listed : get_elem? ss position ≡ some (e.name, snap)
      pub taken : recover_snapshot snap.snapshot ≡ some stored
      pub exact : e ≡ entry_of s e.name stored
      pub readable : read_file (snapshot_bin e.name) d ≡ some stored

    module _ (distinct : Distinct) (done : ℕ → Bool) where
      Stored-step :
          (i : ℕ) (d : Disk) (x : String × Snapshotter Bytes) (e : ManifestEntry)
          → get_elem? ss i ≡ some x
          → Stored (suc i) d e
          → Stored i (snapshot_one s x.0 x.1 d).0 e
      Stored-step i d x e at st = record {
        position = st.position;
        snap = st.snap;
        stored = st.stored;
        reached = omega arith;
        listed = st.listed;
        taken = st.taken;
        exact = st.exact;
        readable = snapshot_one_ne x.0 x.1 d (snapshot_bin e.name) tt clash ∙ st.readable;
      }
        where
          clash : snapshot_bin e.name ≢ snapshot_bin x.0
          clash p =
              let q : e.name ≡ x.0 = cc in
              let r = distinct st.position i (e.name, st.snap) x st.listed at q in
              let l = st.reached in absurd (omega arith)

      Stored-new :
          (i : ℕ) (d : Disk) (x : String × Snapshotter Bytes) (o : Option ManifestEntry)
          → get_elem? ss i ≡ some x
          → (snapshot_one s x.0 x.1 d).1 ≡ o
          → (entries : List ManifestEntry) → All (Stored i (snapshot_one s x.0 x.1 d).0) entries
          → All (Stored i (snapshot_one s x.0 x.1 d).0) (append_some s entries o)
      Stored-new i d x none at h entries old = old
      Stored-new i d x (some e) at h entries old =
          let (b, taken, exact, readable) = snapshot_one-some x.0 x.1 d e h in
          let n : e.name ≡ x.0 = ap (λ y. y.name) exact in
          let here : Stored i (snapshot_one s x.0 x.1 d).0 e = record {
            position = i;
            snap = x.1;
            stored = b;
            reached = omega arith;
            listed = rw n at;
            taken = taken;
            exact = exact ∙ ap (λ y. entry_of s y b) (sym n);
            readable = rw n readable;
          } in
          All-append (Stored i (snapshot_one s x.0 x.1 d).0) entries (e ∷ []) old (here, tt)

      Stored-weaken : (k : ℕ) (d : Disk) (e : ManifestEntry) → Stored k d e → Stored zero d e
      Stored-weaken k d e st = record {
        position = st.position;
        snap = st.snap;
        stored = st.stored;
        reached = omega arith;
        listed = st.listed;
        taken = st.taken;
        exact = st.exact;
        readable = st.readable;
      }

      -- At the end of the loop every entry's data can be read.
      pub snapshot_below-Stored :
          (i : ℕ) (d : Disk) (entries : List ManifestEntry)
          → All (Stored i d) entries
          → All
              (Stored zero (snapshot_below s ss done i d entries).0)
              (snapshot_below s ss done i d entries).1
      unfolding snapshot_below
      snapshot_below-Stored zero d entries h = h
      snapshot_below-Stored (suc i) d entries h =
          let weak = All-imp entries (Stored-weaken (suc i) d) h in
          elim (Bool-cases (done i)) [
            | inl stop ↦ rw (stop, snapshot_below) weak
            | inr on ↦ elim (Option-cases (get_elem? ss i)) [
              | inl out ↦ rw (on, out, snapshot_below) weak
              | inr (x, at) ↦
                  let o = (snapshot_one s x.0 x.1 d).1 in
                  let d' = (snapshot_one s x.0 x.1 d).0 in
                  let old = All-imp entries (λ e. Stored-step i d x e at) h in
                  rw (on, at, snapshot_below)
                    (snapshot_below-Stored i d' (append_some s entries o)
                      (Stored-new i d x o at refl entries old))
            ]
          ]

  pub entry_by_name_found :
      (P : ManifestEntry → Type 0) (n : String) (es : List ManifestEntry) (e : ManifestEntry)
      → All P es
      → entry_by_name n es ≡ some e
      → P e × (e.name ≡ n)
  unfolding entry_by_name
  entry_by_name_found P n [] e h f = ground arith
  entry_by_name_found P n (x ∷ es) e h f = elim (Option-cases (entry_by_name n es)) [
    | inr (y, later) ↦
        let q : y ≡ e = ground arith in entry_by_name_found P n es e h.1 (later ∙ ap some q)
    | inl last ↦ elim (dec_str x.name n) [
      | yes p ↦ let q : x ≡ e = ground arith in (subst P q h.0, ap (λ y. y.name) (sym q) ∙ p)
      | no p ↦ ground arith
    ]
  ]
