-- ===== src/Start/Files.antt =====
-- src/littlefs/littlefs_mount.c, `create_index_html` of src/test_functions.c and
-- `erase_partition_by_id` of src/main.c: the file system and the flash at
-- the start.
use cedar_switch_3i3o_power.Common.{
  ℕ, true, false, not, ◌++◌, ◌≡◌, if◌then◌else◌, take, drop, ℤ, pos, is_neg, is_zero,
}
use cedar_switch_3i3o_power.Common.CString.{Bytes, codes}

-- The file system of the operating system. `open_rdwr` is fs_open with FS_O_CREATE and FS_O_RDWR,
-- `content` the bytes of a file, none if it is missing.
pub record Files : Type 1 where
  pub Disk : Type 0
  pub mount : Disk → ℤ × Disk
  pub mkfs : Disk → ℤ × Disk
  pub mkdir : Bytes → Disk → ℤ × Disk
  pub open_rdwr : Bytes → Disk → ℤ × Disk
  pub write : Bytes → Bytes → Disk → ℤ × Disk
  pub close : Bytes → Disk → Disk
  pub content : Bytes → Disk → Bytes

-- The documented behaviour of these calls on the contents: a mount, a new directory and an open
-- without FS_O_TRUNC leave them alone, and a write after the open replaces the bytes at the
-- beginning of the file.
pub record KeepsContent (fs : Files) : Type 0 where
  pub content-mount :
      (path : Bytes) (d : fs.Disk)
      → is_zero (fs.mount d).0 ≡ true
      → fs.content path (fs.mount d).1 ≡ fs.content path d
  pub content-mkdir :
      (path dir : Bytes) (d : fs.Disk) → fs.content path (fs.mkdir dir d).1 ≡ fs.content path d
  pub content-write :
      (path bytes : Bytes) (d : fs.Disk) (n : ℕ)
      → is_neg (fs.open_rdwr path d).0 ≡ false
      → (fs.write path bytes (fs.open_rdwr path d).1).0 ≡ pos n
      → fs.content path (fs.write path bytes (fs.open_rdwr path d).1).1
        ≡ take n bytes ++ drop n (fs.content path d)
  pub content-close :
      (path : Bytes) (d : fs.Disk) → fs.content path (fs.close path d) ≡ fs.content path d

abbrev pub index_path : Bytes
index_path = codes "/lfs/www/index.html"

abbrev pub index_html : Bytes
index_html =
    codes "<!DOCTYPE html>\n"
    ++ (codes "<html>\n"
        ++ (codes "<head><title>Test Page</title></head>\n"
            ++ (codes "<body>\n"
                ++ (codes "  <h1>Hello from Zephyr!</h1>\n"
                    ++ (codes "</body>\n" ++ codes "</html>\n")))))

module _ (fs : Files) where
  unfoldable pub create_index_html : fs.Disk → ℤ × fs.Disk
  create_index_html d =
      let opened = fs.open_rdwr index_path d in
      let written = fs.write index_path index_html opened.1 in
      if is_neg opened.0
      then opened
      else if is_neg written.0
      then (written.0, fs.close index_path written.1)
      else (pos 0, fs.close index_path written.1)

  -- The configuration has CONFIG_FILE_SYSTEM_MKFS.
  unfoldable pub mount_or_mkfs : fs.Disk → ℤ × fs.Disk
  mount_or_mkfs d =
      let mounted = fs.mount d in
      let made = fs.mkfs mounted.1 in
      if is_zero mounted.0 then mounted else if is_zero made.0 then fs.mount made.1 else made

  unfoldable pub fs_service_init : fs.Disk → ℤ × fs.Disk
  fs_service_init d =
      let mounted = mount_or_mkfs d in if is_zero mounted.0 then (pos 0, mounted.1) else mounted

-- The flash map of the operating system: `area_open` gives the size of a partition.
module _ (Flash : Type 0) (area_open : ℕ → Flash → ℤ × ℕ)
    (area_erase : ℕ → ℕ → ℕ → Flash → ℤ × Flash) where
  unfoldable pub erase_partition_by_id : ℕ → Flash → ℤ × Flash
  erase_partition_by_id part_id f =
      let opened = area_open part_id f in
      let erased = area_erase part_id 0 opened.1 f in
      if not (is_zero opened.0)
      then (opened.0, f)
      else if not (is_zero erased.0)
      then erased
      else (pos 0, erased.1)
