-- ===== src/Littlefs/Flat.antt =====
-- `fs_delete_tree` (src/littlefs/filesystem_helpers.c) on a directory of files.
use cedar_switch_3i3o_power.Common.{
  ℕ, zero, suc, ◌+◌, ◌≤◌, ◌<◌, ◌≡◌, refl, inl, inr, false, ◌||◌, some, List, [], ◌∷◌, ◌++◌, All,
  Bool-cases, if◌then◌else◌, arith, length, leb, take_of_length-le, ℤ, pos, is_neg,
}
use cedar_switch_3i3o_power.Common.CString.{Bytes, codes, bytes_eq, is_empty}
use cedar_switch_3i3o_power.Littlefs.Walk.{
  join_path, path_max, Entry, is_dir, FileSystem, delete_round, delete_start, delete_walk,
  fs_delete_tree,
}

-- Reading an open directory gives its entries one after the other and then an empty name, also while
-- files of it are unlinked.
pub record Listing (fs : FileSystem) : Type 0 where
  pub entries : fs.Dir → List Entry
  pub read-entry :
      (dir : fs.Dir) (disk : fs.Disk) (e : Entry) (es : List Entry)
      → entries dir ≡ e ∷ es
      → ((fs.fs_readdir dir disk).0 ≡ (pos 0, e)) × (entries (fs.fs_readdir dir disk).1 ≡ es)
  pub read-end :
      (dir : fs.Dir) (disk : fs.Disk)
      → entries dir ≡ []
      → (is_neg (fs.fs_readdir dir disk).0.0 ≡ false) × ((fs.fs_readdir dir disk).0.1.name ≡ [])

-- An entry that is no directory, with a name that fits behind the path.
abbrev pub IsFileIn : Bytes → Entry → Type 0
IsFileIn path e =
    (is_dir e.entry_type ≡ false)
    × (is_empty e.name ≡ false)
    × ((bytes_eq e.name (codes ".") || bytes_eq e.name (codes "..")) ≡ false)
    × (length (path ++ (b'/' ∷ e.name)) < 256)

join_path_fits :
    (path name : Bytes)
    → length (path ++ (b'/' ∷ name)) < 256
    → join_path path_max path name ≡ (pos 0, path ++ (b'/' ∷ name))
unfolding join_path
join_path_fits path name h =
    let short : leb 256 (length (path ++ (b'/' ∷ name))) ≡ false = ground arith in
    rw (short, take_of_length-le 255 (path ++ (b'/' ∷ name)) (omega arith)) refl

module _ (fs : FileSystem) (l : Listing fs) where
  -- The files are unlinked in their order, then the directory, up to the first failure.
  unfoldable pub delete_files : Bytes → List Entry → fs.Disk → ℤ × fs.Disk
  delete_files path [] disk = fs.fs_unlink path disk
  delete_files path (e ∷ es) disk =
      let unlinked = fs.fs_unlink (path ++ (b'/' ∷ e.name)) disk in
      let rest = delete_files path es unlinked.1 in if is_neg unlinked.0 then unlinked else rest

  delete_loop_files :
      (path : Bytes) (es : List Entry) (dir : fs.Dir) (disk : fs.Disk) (fuel : ℕ)
      → l.entries dir ≡ es
      → All (IsFileIn path) es
      → length es < fuel
      → delete_walk fs fuel (some dir) path disk ≡ some (delete_files path es disk)
  unfolding delete_walk delete_round delete_files
  delete_loop_files path es dir disk zero e files h = absurd (omega arith)
  delete_loop_files path [] dir disk (suc fuel) e files h =
      let (got, end) = l.read-end dir disk e in rw (got) (rw (end) refl)
  delete_loop_files path (x ∷ es) dir disk (suc fuel) e ((file, named, plain, fits), files) h =
      let (read, rest) = l.read-entry dir disk x es e in
      let unlinked = fs.fs_unlink (path ++ (b'/' ∷ x.name)) disk in
      elim (Bool-cases (is_neg unlinked.0)) [
        | inl failed ↦
            rw (read) (rw (named, plain, join_path_fits path x.name fits) (rw (file, failed) refl))
        | inr done ↦ rw (read) (
            rw (named, plain, join_path_fits path x.name fits)
              (rw (file, done)
                (delete_loop_files path es (fs.fs_readdir dir disk).1 unlinked.1 fuel rest files
                  (omega arith))))
      ]

  -- The deletion of a directory that holds only files, with names that fit behind the path, ends: it
  -- unlinks the files in their order and then the directory, and gives the code of the first unlinking
  -- that fails or else of the last, for every fuel above the number of entries by two.
  pub fs_delete_tree_files :
      (path : Bytes) (es : List Entry) (disk : fs.Disk) (fuel : ℕ)
      → is_empty path ≡ false
      → is_neg (fs.fs_opendir path disk).0 ≡ false
      → l.entries (fs.fs_opendir path disk).1 ≡ es
      → All (IsFileIn path) es
      → length es + 2 ≤ fuel
      → fs_delete_tree fs fuel path disk ≡ some (delete_files path es disk)
  unfolding delete_walk delete_start
  fs_delete_tree_files path es disk zero there opens e files h = absurd (omega arith)
  fs_delete_tree_files path es disk (suc fuel) there opens e files h =
      rw (there, opens)
        (delete_loop_files path es (fs.fs_opendir path disk).1 disk fuel e files (omega arith))
