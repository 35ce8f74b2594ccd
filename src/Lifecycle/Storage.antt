-- ===== src/Lifecycle/Storage.antt =====
-- What the snapshot code takes from outside the repository: the file system (package os), the
-- manifest's JSON encoding and the length of a byte slice. Paths are values: module names are taken
-- to be plain path elements, so that two of these paths are the same file only if they are equal.
use claude_mnemonic_plus.Prelude.{
  ℕ, ◌≡◌, ◌≢◌, ◌∙◌, inl, inr, String, Bool, true, false, Option, some, List, arith, Bool-cases,
  if◌then◌else◌,
}

pub data FilePath : Type 0 where
  manifest_json : FilePath
  snapshot_bin : String → FilePath
  tmp_of : FilePath → FilePath

-- The directory of a file: the storage directory itself, or that of a module in it.
abbrev pub dir_of : FilePath → String
dir_of manifest_json = ""
dir_of (snapshot_bin n) = n
dir_of (tmp_of p) = dir_of p

-- ManifestEntry. The file is the path that `filepath.Join(storageDir, entry.File)` resolves to.
pub record ManifestEntry : Type 0 where
  pub name : String
  pub file : FilePath
  pub size_bytes : ℕ
  pub declared_version : ℕ

-- Manifest
pub record Manifest : Type 0 where
  pub schema_version : ℕ
  pub created_at : ℕ
  pub daemon_version : String
  pub modules : List ManifestEntry

-- A call returns the new state of the disk and whether it succeeded. The laws are what package os
-- documents: a write that succeeds is read back, a rename moves the content and replaces the
-- target, a rename that fails changes nothing, and no call touches a file that it does not name.
pub record Storage : Type 1 where
  pub Disk : Type 0
  pub Bytes : Type 0
  pub size : Bytes → ℕ
  pub envelope_version : Bytes → ℕ
  pub encode_manifest : Manifest → Bytes
  pub decode_manifest : Bytes → Option Manifest
  pub decode-encode : (m : Manifest) → decode_manifest (encode_manifest m) ≡ some m
  pub read_file : FilePath → Disk → Option Bytes
  pub write_file : FilePath → Bytes → Disk → Disk × Bool
  pub rename : FilePath → FilePath → Disk → Disk × Bool
  pub remove : FilePath → Disk → Disk
  pub mkdir_all : String → Disk → Disk × Bool
  pub glob_snapshots : Disk → List String
  pub read-write :
      (p : FilePath) (b : Bytes) (d : Disk)
      → (write_file p b d).1 ≡ true
      → read_file p (write_file p b d).0 ≡ some b
  pub read-write_ne :
      (p q : FilePath) (b : Bytes) (d : Disk)
      → q ≢ p
      → read_file q (write_file p b d).0 ≡ read_file q d
  pub read-rename :
      (p q : FilePath) (d : Disk)
      → (rename p q d).1 ≡ true
      → read_file q (rename p q d).0 ≡ read_file p d
  pub read-rename_ne :
      (p q r : FilePath) (d : Disk) → r ≢ p → r ≢ q → read_file r (rename p q d).0 ≡ read_file r d
  pub read-rename_failed :
      (p q r : FilePath) (d : Disk)
      → (rename p q d).1 ≡ false
      → read_file r (rename p q d).0 ≡ read_file r d
  pub read-remove_ne :
      (p q : FilePath) (d : Disk) → q ≢ p → read_file q (remove p d) ≡ read_file q d
  pub read-mkdir_all :
      (n : String) (q : FilePath) (d : Disk) → read_file q (mkdir_all n d).0 ≡ read_file q d

-- The paths that are not temporary.
abbrev pub IsFinal : FilePath → Type 0
IsFinal (tmp_of p) = ⊥
IsFinal manifest_json = Unit
IsFinal (snapshot_bin n) = Unit

pub IsFinal-ne-tmp : (p q : FilePath) → IsFinal p → p ≢ tmp_of q
IsFinal-ne-tmp (tmp_of p) q h e = h
IsFinal-ne-tmp manifest_json q h e = cc
IsFinal-ne-tmp (snapshot_bin n) q h e = cc

module _ (s : Storage) where
  open s use {
    Disk, Bytes, write_file, rename, remove, read_file, read-write, read-write_ne, read-rename,
    read-rename_ne, read-rename_failed, read-remove_ne,
  }

  -- The second half of writeFileAtomic, on the disk that os.WriteFile left.
  unfoldable pub rename_into : FilePath → Disk → Disk × Bool
  rename_into final d =
      let (d', ok) = rename (tmp_of final) final d in
      if ok then (d', true) else (remove (tmp_of final) d', false)

  -- writeFileAtomic, with `finalPath + ".tmp"` as the temporary path.
  unfoldable pub write_file_atomic : FilePath → Bytes → Disk → Disk × Bool
  write_file_atomic final b d =
      let (d', ok) = write_file (tmp_of final) b d in
      if ok then rename_into final d' else (remove (tmp_of final) d', false)

  module _ (p : FilePath) (f : IsFinal p) (d : Disk) where
    rename_into_ok :
        (rename_into p d).1 ≡ true → read_file p (rename_into p d).0 ≡ read_file (tmp_of p) d
    unfolding rename_into
    rename_into_ok h = elim (Bool-cases (rename (tmp_of p) p d).1) [
      | inl ok ↦ ground (arith, read-rename (tmp_of p) p d ok)
      | inr bad ↦ ground arith
    ]

    rename_into_failed :
        (q : FilePath)
        → IsFinal q
        → (rename_into p d).1 ≡ false
        → read_file q (rename_into p d).0 ≡ read_file q d
    unfolding rename_into
    rename_into_failed q g h = elim (Bool-cases (rename (tmp_of p) p d).1) [
      | inl ok ↦ ground arith
      | inr bad ↦ rw bad (
          read-remove_ne (tmp_of p) q (rename (tmp_of p) p d).0 (IsFinal-ne-tmp q p g)
          ∙ read-rename_failed (tmp_of p) p q d bad)
    ]

    rename_into_ne :
        (q : FilePath) → IsFinal q → q ≢ p → read_file q (rename_into p d).0 ≡ read_file q d
    unfolding rename_into
    rename_into_ne q g ne =
        let away = read-rename_ne (tmp_of p) p q d (IsFinal-ne-tmp q p g) ne in
        elim (Bool-cases (rename (tmp_of p) p d).1) [
          | inl ok ↦ rw ok away
          | inr bad ↦
              rw bad (
                read-remove_ne (tmp_of p) q (rename (tmp_of p) p d).0 (IsFinal-ne-tmp q p g) ∙ away)
        ]

module _ (s : Storage) (p : FilePath) (f : IsFinal p) (d : s.Disk) (b : s.Bytes) where
  open s use {
    Disk, Bytes, write_file, rename, remove, read_file, read-write, read-write_ne, read-rename,
    read-rename_ne, read-rename_failed, read-remove_ne,
  }

  abbrev written : Disk
  written = (write_file (tmp_of p) b d).0

  -- If writeFileAtomic to a path that is not temporary succeeds, the file at that path has the
  -- new content.
  pub write_file_atomic_ok :
      (write_file_atomic s p b d).1 ≡ true → read_file p (write_file_atomic s p b d).0 ≡ some b
  unfolding write_file_atomic
  write_file_atomic_ok h = elim (Bool-cases (write_file (tmp_of p) b d).1) [
    | inl ok ↦ rw ok (rename_into_ok s p f written (ground arith) ∙ read-write (tmp_of p) b d ok)
    | inr bad ↦ ground arith
  ]

  -- If writeFileAtomic to a path that is not temporary fails, every file that is not temporary
  -- reads as before.
  pub write_file_atomic_failed :
      (q : FilePath)
      → IsFinal q
      → (write_file_atomic s p b d).1 ≡ false
      → read_file q (write_file_atomic s p b d).0 ≡ read_file q d
  unfolding write_file_atomic
  write_file_atomic_failed q g h =
      let kept = read-write_ne (tmp_of p) q b d (IsFinal-ne-tmp q p g) in
      elim (Bool-cases (write_file (tmp_of p) b d).1) [
        | inl ok ↦ rw ok (rename_into_failed s p f written q g (ground arith) ∙ kept)
        | inr bad ↦ rw bad (read-remove_ne (tmp_of p) q written (IsFinal-ne-tmp q p g) ∙ kept)
      ]

  -- writeFileAtomic to a path that is not temporary leaves every other file that is not temporary
  -- as it reads, whether or not it succeeds.
  pub write_file_atomic_ne :
      (q : FilePath) → IsFinal q → q ≢ p → read_file q (write_file_atomic s p b d).0 ≡ read_file q d
  unfolding write_file_atomic
  write_file_atomic_ne q g ne =
      let kept = read-write_ne (tmp_of p) q b d (IsFinal-ne-tmp q p g) in
      elim (Bool-cases (write_file (tmp_of p) b d).1) [
        | inl ok ↦ rw ok (rename_into_ne s p f written q g ne ∙ kept)
        | inr bad ↦ rw bad (read-remove_ne (tmp_of p) q written (IsFinal-ne-tmp q p g) ∙ kept)
      ]
