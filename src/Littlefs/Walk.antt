-- ===== src/Littlefs/Walk.antt =====
-- src/littlefs/filesystem_helpers.c: `fs_delete_tree` and `fs_calc_dir_size`.
use cedar_switch_3i3o_power.Common.{
  ℕ, zero, suc, ◌+◌, ◌-◌, ◌%◌, ◌^◌, Bool, true, false, ◌||◌, Option, none, some, ◌∷◌, ◌++◌, leb,
  if◌then◌else◌, length, take, ℤ, pos, negsuc, is_neg, e_inval,
}
use cedar_switch_3i3o_power.Common.CString.{Bytes, codes, bytes_eq, is_empty}

-- -ENAMETOOLONG
abbrev pub e_name_too_long : ℤ
e_name_too_long = negsuc 90

abbrev pub path_max : ℕ
path_max = 256

unfoldable pub join_path : ℕ → Bytes → Bytes → ℤ × Bytes
join_path out_sz base name =
    let text = base ++ (b'/' ∷ name) in
    ((if leb out_sz (length text) then e_name_too_long else pos 0), take (out_sz - 1) text)

-- The types FS_DIR_ENTRY_FILE and FS_DIR_ENTRY_DIR, and any other.
pub data EntryType : Type 0 where
  entry_file entry_dir entry_other : EntryType

-- fs_dirent
pub record Entry : Type 0 where
  pub entry_type : EntryType
  pub name : Bytes
  pub size : ℕ

abbrev pub is_dir : EntryType → Bool
is_dir entry_dir = true
is_dir other = false

-- The calls of the file system, on the disk and on an open directory. An open directory is closed by
-- the value being dropped; `fs_opendir` gives one whether it succeeds or not, as the variable is there.
pub record FileSystem : Type 1 where
  pub Disk : Type 0
  pub Dir : Type 0
  pub fs_opendir : Bytes → Disk → ℤ × Dir
  pub fs_readdir : Dir → Disk → (ℤ × Entry) × Dir
  pub fs_unlink : Bytes → Disk → ℤ × Disk

module _ (fs : FileSystem) where
  abbrev pub Result : Type 0
  Result = Option (ℤ × fs.Disk)

  -- After the call for a subdirectory, whose result is given: the directory is opened again, and
  -- `path` is unlinked. `loop` goes on with an open directory.
  unfoldable pub after_subdir : (fs.Dir → fs.Disk → Result) → Bytes → Result → Result
  after_subdir loop path none = none
  after_subdir loop path (some (rc, disk)) =
      let unlinked = fs.fs_unlink path disk in
      let dir = (fs.fs_opendir path disk).1 in
      if is_neg rc
      then some (rc, disk)
      else if is_neg unlinked.0
      then some unlinked
      else loop dir unlinked.1

  -- A round of the loop over the directory.
  unfoldable pub delete_round :
      (fs.Dir → fs.Disk → Result) → (Bytes → fs.Disk → Result) → Bytes → fs.Dir → fs.Disk → Result
  delete_round loop tree path dir disk =
      let read = fs.fs_readdir dir disk in
      let ent = read.0.1 in
      let child = join_path path_max path ent.name in
      let unlinked = fs.fs_unlink child.1 disk in
      if is_neg read.0.0
      then some (read.0.0, disk)
      else if is_empty ent.name
      then some (fs.fs_unlink path disk)
      else if bytes_eq ent.name (codes ".") || bytes_eq ent.name (codes "..")
      then loop read.1 disk
      else if is_neg child.0
      then some (child.0, disk)
      else if is_dir ent.entry_type
      then after_subdir loop path (tree child.1 disk)
      else if is_neg unlinked.0
      then some unlinked
      else loop read.1 unlinked.1

  unfoldable pub delete_start : (fs.Dir → fs.Disk → Result) → Bytes → fs.Disk → Result
  delete_start loop path disk =
      let opened = fs.fs_opendir path disk in
      if is_empty path
      then some (e_inval, disk)
      else if is_neg opened.0
      then some (fs.fs_unlink path disk)
      else loop opened.1 disk

  -- Each round and each call takes one unit of fuel; `none` is the end of the fuel. Without an open
  -- directory it is the function, with one the loop in it.
  unfoldable pub delete_walk : ℕ → Option fs.Dir → Bytes → fs.Disk → Result
  delete_walk zero at path disk = none
  delete_walk (suc fuel) none path disk =
      delete_start (λ dir later. delete_walk fuel (some dir) path later) path disk
  delete_walk (suc fuel) (some dir) path disk =
      delete_round (λ next later. delete_walk fuel (some next) path later)
        (λ child later. delete_walk fuel none child later) path dir disk

  abbrev pub fs_delete_tree : ℕ → Bytes → fs.Disk → Result
  fs_delete_tree fuel path disk = delete_walk fuel none path disk

  -- fs_calc_dir_size: the return code, and `*total_size`, which has 32 bits. The disk does not change.
  abbrev pub SizeResult : Type 0
  SizeResult = Option (ℤ × ℕ)

  -- The size of a subdirectory is added, whatever its call returns.
  unfoldable pub after_size : (ℕ → SizeResult) → SizeResult → SizeResult
  after_size loop none = none
  after_size loop (some (rc, total)) = loop total

  unfoldable pub size_round :
      (fs.Dir → ℕ → SizeResult)
      → (Bytes → ℕ → SizeResult)
      → Bytes
      → fs.Disk
      → fs.Dir
      → ℕ
      → SizeResult
  size_round loop tree path disk dir total =
      let read = fs.fs_readdir dir disk in
      let entry = read.0.1 in
      let next = loop read.1 in
      if is_neg read.0.0 || is_empty entry.name
      then some (pos 0, total)
      else elim entry.entry_type [
        | entry_file ↦ next ((total + entry.size) % 2 ^ 32)
        | entry_dir ↦ after_size next (tree (join_path 260 path entry.name).1 total)
        | entry_other ↦ next total
      ]

  unfoldable pub size_start : (fs.Dir → ℕ → SizeResult) → Bytes → fs.Disk → ℕ → SizeResult
  size_start loop path disk total =
      let opened = fs.fs_opendir path disk in
      if is_neg opened.0 then some (opened.0, total) else loop opened.1 total

  -- As `delete_walk`.
  unfoldable pub size_walk : ℕ → Option fs.Dir → Bytes → fs.Disk → ℕ → SizeResult
  size_walk zero at path disk total = none
  size_walk (suc fuel) none path disk total =
      size_start (λ dir sum. size_walk fuel (some dir) path disk sum) path disk total
  size_walk (suc fuel) (some dir) path disk total =
      size_round (λ next sum. size_walk fuel (some next) path disk sum)
        (λ child sum. size_walk fuel none child disk sum) path disk dir total

  abbrev pub fs_calc_dir_size : ℕ → Bytes → fs.Disk → ℕ → SizeResult
  fs_calc_dir_size fuel path disk total = size_walk fuel none path disk total
