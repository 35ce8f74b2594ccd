-- ===== src/Lifecycle/Disks.antt =====
-- A file system in memory, for the tests of the lifecycle modules.
use claude_mnemonic_plus.Prelude.{
  ℕ, ◌≡◌, ◌≢◌, refl, ap, inl, inr, String, Bool, true, false, Option, none, some, List, [], ◌∷◌,
  lookup, insert, delete, lookup-insert, lookup-delete, dec_str, arith, Option-cases, if◌then◌else◌,
  ite,
}
use claude_mnemonic_plus.Lifecycle.Storage.{
  Storage, FilePath, manifest_json, snapshot_bin, tmp_of, dir_of, Manifest,
}

unfoldable pub dec_path : Discrete FilePath
dec_path manifest_json manifest_json = yes refl
dec_path manifest_json (snapshot_bin n) = no (λ e. cc)
dec_path manifest_json (tmp_of q) = no (λ e. cc)
dec_path (snapshot_bin m) manifest_json = no (λ e. cc)
dec_path (snapshot_bin m) (snapshot_bin n) = elim (dec_str m n) [
  | yes e ↦ yes (ap snapshot_bin e)
  | no e ↦ no (λ p. e cc)
]
dec_path (snapshot_bin m) (tmp_of q) = no (λ e. cc)
dec_path (tmp_of p) manifest_json = no (λ e. cc)
dec_path (tmp_of p) (snapshot_bin n) = no (λ e. cc)
dec_path (tmp_of p) (tmp_of q) = elim (dec_path p q) [
  | yes e ↦ yes (ap tmp_of e)
  | no e ↦ no (λ h. e cc)
]

-- The content of a file: a module's data, by its size and version, or a manifest.
pub data Content : Type 0 where
  raw : ℕ → ℕ → Content
  manifest_text : Manifest → Content

-- The directories and the files. The storage directory is the one with an empty name.
abbrev pub Files : Type 0
Files = List (String × Unit {0}) × List (FilePath × Content)

abbrev pub size_of : Content → ℕ
size_of (raw n version) = n
size_of (manifest_text m) = 100

abbrev pub version_of : Content → ℕ
version_of (raw n version) = version
version_of (manifest_text m) = 0

abbrev pub decode : Content → Option Manifest
decode (raw n version) = none
decode (manifest_text m) = some m

abbrev pub read : FilePath → Files → Option Content
read p d = lookup dec_path p d.1

unfoldable pub has_directory : String → Files → Bool
has_directory n d = elim (lookup dec_str n d.0) [ none ↦ false | some u ↦ true ]

abbrev pub make_directory : String → Files → Files
make_directory n d = (insert dec_str n tt (insert dec_str "" tt d.0), d.1)

-- os.WriteFile, which makes no directory.
unfoldable pub store : FilePath → Content → Files → Files × Bool
store p b d =
    if has_directory (dir_of p) d then ((d.0, insert dec_path p b d.1), true) else (d, false)

abbrev pub erase : FilePath → Files → Files
erase p d = (d.0, delete dec_path p d.1)

-- A file that is there has its directory.
unfoldable pub move : FilePath → FilePath → Files → Files × Bool
move p q d = elim (read p d) [
  | none ↦ (d, false)
  | some b ↦
      if ite (dec_str (dir_of p) (dir_of q)) true (has_directory (dir_of q) d)
      then ((d.0, insert dec_path q b (delete dec_path p d.1)), true)
      else (d, false)
]

unfoldable pub module_files : List (FilePath × Content) → List String
module_files [] = []
module_files ((manifest_json, b) ∷ d) = module_files d
module_files ((snapshot_bin n, b) ∷ d) = n ∷ module_files d
module_files ((tmp_of p, b) ∷ d) = module_files d

pub has_directory-make_directory :
    (n : String) (d : Files) → has_directory n (make_directory n d) ≡ true
unfolding has_directory
has_directory-make_directory n d =
    ground (arith, lookup-insert {V = Unit {0}} dec_str n n tt (insert dec_str "" tt d.0))

pub store_there :
    (p : FilePath) (b : Content) (d : Files)
    → has_directory (dir_of p) d ≡ true
    → (store p b d).1 ≡ true
unfolding store
store_there p b d h = ground (arith, h)

pub move_present :
    (p q : FilePath) (b : Content) (d : Files)
    → dir_of p ≡ dir_of q
    → read p d ≡ some b
    → (move p q d).1 ≡ true
unfolding move
move_present p q b d same h = ground (arith, same, h)

pub read-move :
    (p q : FilePath) (d : Files) → (move p q d).1 ≡ true → read q (move p q d).0 ≡ read p d
unfolding move
read-move p q d h = elim (Option-cases (read p d)) [
  | inl absent ↦ ground arith
  | inr (b, present) ↦ ground (arith, lookup-insert dec_path q q b (delete dec_path p d.1))
]

pub read-move_ne : (p q r : FilePath) (d : Files) → r ≢ p → r ≢ q → read r (move p q d).0 ≡ read r d
unfolding move
read-move_ne p q r d a b = elim (Option-cases (read p d)) [
  | inl absent ↦ ground arith
  | inr (c, present) ↦
      let i = lookup-insert dec_path q r c (delete dec_path p d.1) in
      let x = lookup-delete {V = Content} dec_path p r d.1 in ground arith
]

pub read-move_failed :
    (p q r : FilePath) (d : Files) → (move p q d).1 ≡ false → read r (move p q d).0 ≡ read r d
unfolding move
read-move_failed p q r d h = elim (Option-cases (read p d)) [
  | inl absent ↦ ground arith
  | inr (b, present) ↦ ground arith
]

pub read-store :
    (p : FilePath) (b : Content) (d : Files)
    → (store p b d).1 ≡ true
    → read p (store p b d).0 ≡ some b
unfolding store
read-store p b d h = ground (arith, lookup-insert dec_path p p b d.1)

pub read-store_ne :
    (p q : FilePath) (b : Content) (d : Files) → q ≢ p → read q (store p b d).0 ≡ read q d
unfolding store
read-store_ne p q b d ne = ground (arith, lookup-insert dec_path p q b d.1)

pub read-delete_ne : (p q : FilePath) (d : Files) → q ≢ p → read q (erase p d) ≡ read q d
read-delete_ne p q d ne = ground (arith, lookup-delete {V = Content} dec_path p q d.1)

abbrev pub memory_storage : Storage
memory_storage = record {
  Disk = Files;
  Bytes = Content;
  size = size_of;
  envelope_version = version_of;
  encode_manifest = manifest_text;
  decode_manifest = decode;
  decode-encode = λ m. refl;
  read_file = read;
  write_file = store;
  rename = move;
  remove = erase;
  mkdir_all = λ n d. (make_directory n d, true);
  glob_snapshots = λ d. module_files d.1;
  read-write = read-store;
  read-write_ne = read-store_ne;
  read-rename = read-move;
  read-rename_ne = read-move_ne;
  read-rename_failed = read-move_failed;
  read-remove_ne = read-delete_ne;
  read-mkdir_all = λ n q d. refl;
}
