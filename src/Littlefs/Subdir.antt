-- ===== src/Littlefs/Subdir.antt =====
-- `fs_delete_tree` (src/littlefs/filesystem_helpers.c) on a directory that holds a directory: after the
-- call for the child it unlinks `path` in place of the child.
use cedar_switch_3i3o_power.Common.{
  ℕ, zero, suc, ◌≡◌, refl, subst, ℤ, inl, inr, true, false, ◌||◌, Option, none, some, Bool-cases,
  is_neg,
}
use cedar_switch_3i3o_power.Common.CString.{Bytes, codes, bytes_eq, is_empty}
use cedar_switch_3i3o_power.Littlefs.Walk.{
  join_path, path_max, is_dir, FileSystem, Result, after_subdir, delete_round, delete_start,
  delete_walk, fs_delete_tree,
}

-- What unlink(2) says of a name: it fails where the name is not there, it takes the name away where it
-- succeeds, and it never makes a name.
pub record Unlinks (fs : FileSystem) : Type 1 where
  pub Absent : Bytes → fs.Disk → Type 0
  pub unlink-gone :
      (p : Bytes) (d : fs.Disk)
      → is_neg (fs.fs_unlink p d).0 ≡ false
      → Absent p (fs.fs_unlink p d).1
  pub unlink-fails : (p : Bytes) (d : fs.Disk) → Absent p d → is_neg (fs.fs_unlink p d).0 ≡ true
  pub unlink-keeps : (p q : Bytes) (d : fs.Disk) → Absent p d → Absent p (fs.fs_unlink q d).1

module _ (fs : FileSystem) (u : Unlinks fs) where
  abbrev Keeps : Bytes → Result fs → Type 0
  Keeps p none = Unit
  Keeps p (some (rc, disk)) = u.Absent p disk

  -- The walk does not report success.
  abbrev Fails : Result fs → Type 0
  Fails none = Unit
  Fails (some (rc, disk)) = is_neg rc ≡ true

  after_subdir-Keeps :
      (loop : fs.Dir → fs.Disk → Result fs) (p path : Bytes) (r : Result fs)
      → ((dir : fs.Dir) (disk : fs.Disk) → u.Absent p disk → Keeps p (loop dir disk))
      → Keeps p r
      → Keeps p (after_subdir fs loop path r)
  unfolding after_subdir
  after_subdir-Keeps loop p path none h k = tt
  after_subdir-Keeps loop p path (some (rc, disk)) h k =
      let unlinked = fs.fs_unlink path disk in
      elim (Bool-cases (is_neg rc)) [
        | inl failed ↦ rw (failed) k
        | inr ok ↦ elim (Bool-cases (is_neg unlinked.0)) [
          | inl failed ↦ rw (ok, failed) (u.unlink-keeps p path disk k)
          | inr done ↦ rw (ok, done) (h _ unlinked.1 (u.unlink-keeps p path disk k))
        ]
      ]

  delete_round-Keeps :
      (loop : fs.Dir → fs.Disk → Result fs) (tree : Bytes → fs.Disk → Result fs) (p path : Bytes)
      (dir : fs.Dir) (disk : fs.Disk)
      → ((next : fs.Dir) (later : fs.Disk) → u.Absent p later → Keeps p (loop next later))
      → ((child : Bytes) (later : fs.Disk) → u.Absent p later → Keeps p (tree child later))
      → u.Absent p disk
      → Keeps p (delete_round fs loop tree path dir disk)
  unfolding delete_round
  delete_round-Keeps loop tree p path dir disk h k absent =
      let read = fs.fs_readdir dir disk in
      let ent = read.0.1 in
      let child = join_path path_max path ent.name in
      let gone = u.unlink-keeps p child.1 disk absent in
      elim (Bool-cases (is_neg read.0.0)) [
        | inl failed ↦ rw (failed) absent
        | inr got ↦ elim (Bool-cases (is_empty ent.name)) [
          | inl end ↦ rw (got, end) (u.unlink-keeps p path disk absent)
          | inr named ↦
              elim (Bool-cases (bytes_eq ent.name (codes ".") || bytes_eq ent.name (codes ".."))) [
                | inl dots ↦ rw (got, named, dots) (h read.1 disk absent)
                | inr plain ↦ elim (Bool-cases (is_neg child.0)) [
                  | inl long ↦ rw (got, named, plain, long) absent
                  | inr fits ↦ elim (Bool-cases (is_dir ent.entry_type)) [
                    | inl subdir ↦
                        rw (got, named, plain, fits, subdir)
                          (after_subdir-Keeps loop p path (tree child.1 disk) h
                            (k child.1 disk absent))
                    | inr file ↦ elim (Bool-cases (is_neg (fs.fs_unlink child.1 disk).0)) [
                      | inl failed ↦ rw (got, named, plain, fits, file, failed) gone
                      | inr done ↦ rw (got, named, plain, fits, file, done) (h read.1 _ gone)
                    ]
                  ]
                ]
              ]
        ]
      ]

  delete_walk-Keeps :
      (fuel : ℕ) (at : Option fs.Dir) (p path : Bytes) (disk : fs.Disk)
      → u.Absent p disk
      → Keeps p (delete_walk fs fuel at path disk)
  unfolding delete_walk delete_start
  delete_walk-Keeps zero at p path disk absent = tt
  delete_walk-Keeps (suc fuel) none p path disk absent = elim (Bool-cases (is_empty path)) [
    | inl nothing ↦ rw (nothing) absent
    | inr named ↦ elim (Bool-cases (is_neg (fs.fs_opendir path disk).0)) [
      | inl file ↦ rw (named, file) (u.unlink-keeps p path disk absent)
      | inr dir ↦
          rw (named, dir)
            (delete_walk-Keeps fuel (some (fs.fs_opendir path disk).1) p path disk absent)
    ]
  ]
  delete_walk-Keeps (suc fuel) (some dir) p path disk absent =
      delete_round-Keeps (λ next later. delete_walk fs fuel (some next) path later)
        (λ child later. delete_walk fs fuel none child later) p path dir disk
        (λ next later gone. delete_walk-Keeps fuel (some next) p path later gone)
        (λ child later gone. delete_walk-Keeps fuel none p child later gone) absent

  after_subdir-Fails :
      (loop : fs.Dir → fs.Disk → Result fs) (path : Bytes) (r : Result fs)
      → ((dir : fs.Dir) (disk : fs.Disk) → u.Absent path disk → Fails (loop dir disk))
      → Fails (after_subdir fs loop path r)
  unfolding after_subdir
  after_subdir-Fails loop path none h = tt
  after_subdir-Fails loop path (some (rc, disk)) h =
      let unlinked = fs.fs_unlink path disk in
      elim (Bool-cases (is_neg rc)) [
        | inl failed ↦ rw (failed) failed
        | inr ok ↦ elim (Bool-cases (is_neg unlinked.0)) [
          | inl failed ↦ rw (ok, failed) failed
          | inr done ↦ rw (ok, done) (h _ unlinked.1 (u.unlink-gone path disk done))
        ]
      ]

  -- Once `path` is gone, the loop cannot end well, since it ends with the unlinking of `path`.
  delete_round-Fails :
      (loop : fs.Dir → fs.Disk → Result fs) (tree : Bytes → fs.Disk → Result fs) (path : Bytes)
      (dir : fs.Dir) (disk : fs.Disk)
      → ((next : fs.Dir) (later : fs.Disk) → u.Absent path later → Fails (loop next later))
      → u.Absent path disk
      → Fails (delete_round fs loop tree path dir disk)
  unfolding delete_round
  delete_round-Fails loop tree path dir disk h absent =
      let read = fs.fs_readdir dir disk in
      let ent = read.0.1 in
      let child = join_path path_max path ent.name in
      let gone = u.unlink-keeps path child.1 disk absent in
      elim (Bool-cases (is_neg read.0.0)) [
        | inl failed ↦ rw (failed) failed
        | inr got ↦ elim (Bool-cases (is_empty ent.name)) [
          | inl end ↦ rw (got, end) (u.unlink-fails path disk absent)
          | inr named ↦
              elim (Bool-cases (bytes_eq ent.name (codes ".") || bytes_eq ent.name (codes ".."))) [
                | inl dots ↦ rw (got, named, dots) (h read.1 disk absent)
                | inr plain ↦ elim (Bool-cases (is_neg child.0)) [
                  | inl long ↦ rw (got, named, plain, long) long
                  | inr fits ↦ elim (Bool-cases (is_dir ent.entry_type)) [
                    | inl subdir ↦
                        rw (got, named, plain, fits, subdir)
                          (after_subdir-Fails loop path (tree child.1 disk) h)
                    | inr file ↦ elim (Bool-cases (is_neg (fs.fs_unlink child.1 disk).0)) [
                      | inl failed ↦ rw (got, named, plain, fits, file, failed) failed
                      | inr done ↦ rw (got, named, plain, fits, file, done) (h read.1 _ gone)
                    ]
                  ]
                ]
              ]
        ]
      ]

  delete_walk-Fails :
      (fuel : ℕ) (dir : fs.Dir) (path : Bytes) (disk : fs.Disk)
      → u.Absent path disk
      → Fails (delete_walk fs fuel (some dir) path disk)
  unfolding delete_walk
  delete_walk-Fails zero dir path disk absent = tt
  delete_walk-Fails (suc fuel) dir path disk absent =
      delete_round-Fails (λ next later. delete_walk fs fuel (some next) path later)
        (λ child later. delete_walk fs fuel none child later) path dir disk
        (λ next later gone. delete_walk-Fails fuel next path later gone) absent

  delete_tree-Fails :
      (fuel : ℕ) (path : Bytes) (disk : fs.Disk)
      → let opened = fs.fs_opendir path disk in
        let read = fs.fs_readdir opened.1 disk in
        is_neg opened.0 ≡ false
        → is_neg read.0.0 ≡ false
        → is_empty read.0.1.name ≡ false
        → (bytes_eq read.0.1.name (codes ".") || bytes_eq read.0.1.name (codes "..")) ≡ false
        → is_dir read.0.1.entry_type ≡ true
        → Fails (fs_delete_tree fs fuel path disk)
  unfolding delete_walk delete_start delete_round
  delete_tree-Fails zero path disk opens got named plain subdir = tt
  delete_tree-Fails (suc zero) path disk opens got named plain subdir =
      elim (Bool-cases (is_empty path)) [
        | inl nothing ↦ rw (nothing) refl
        | inr there ↦ rw (there, opens) tt
      ]
  delete_tree-Fails (suc (suc fuel)) path disk opens got named plain subdir =
      let opened = fs.fs_opendir path disk in
      let read = fs.fs_readdir opened.1 disk in
      let child = join_path path_max path read.0.1.name in
      elim (Bool-cases (is_empty path)) [
        | inl nothing ↦ rw (nothing) refl
        | inr there ↦ elim (Bool-cases (is_neg child.0)) [
          | inl long ↦ rw (there, opens, got, named, plain, long) long
          | inr fits ↦
              rw (there, opens, got, named, plain, fits, subdir)
                (after_subdir-Fails _ path _
                  (λ next later gone. delete_walk-Fails fuel next path later gone))
        ]
      ]

  -- Where the deletion of a directory whose first entry is a directory comes to an end, with
  -- whatever fuel, it returns an error, even if it has deleted the whole tree.
  pub fs_delete_tree_subdir :
      (fuel : ℕ) (path : Bytes) (disk later : fs.Disk) (rc : ℤ)
      → let opened = fs.fs_opendir path disk in
        let read = fs.fs_readdir opened.1 disk in
        is_neg opened.0 ≡ false
        → is_neg read.0.0 ≡ false
        → is_empty read.0.1.name ≡ false
        → (bytes_eq read.0.1.name (codes ".") || bytes_eq read.0.1.name (codes "..")) ≡ false
        → is_dir read.0.1.entry_type ≡ true
        → fs_delete_tree fs fuel path disk ≡ some (rc, later)
        → is_neg rc ≡ true
  fs_delete_tree_subdir fuel path disk later rc opens got named plain subdir ends =
      subst Fails ends (delete_tree-Fails fuel path disk opens got named plain subdir)
