-- ===== src/Start/Overwritten.antt =====
-- The page of the web interface after a start (src/main.c, src/test_functions.c).
use cedar_switch_3i3o_power.Common.{
  ◌≡◌, ◌∙◌, ap, true, false, ◌++◌, drop, length, pos, is_neg, is_zero, take_of_length-le, arith,
}
use cedar_switch_3i3o_power.Common.CString.{Bytes}
use cedar_switch_3i3o_power.Io.Init.{RelaySettings}
use cedar_switch_3i3o_power.Start.Files.{
  Files, KeepsContent, index_path, index_html, create_index_html, mount_or_mkfs, fs_service_init,
}
use cedar_switch_3i3o_power.Start.Main.{
  Board, devices_ready, Machine, start_io, start_network, make_files, start_services, main,
}

-- The test page over the beginning of a page.
abbrev pub over : Bytes → Bytes
over page = index_html ++ drop (length index_html) page

module _ (st : RelaySettings) (fs : Files) (keeps : KeepsContent fs) where
  -- Every open and every write of the page succeeds.
  abbrev pub WritesPage : Type 0
  WritesPage =
      (d : fs.Disk)
      → (is_neg (fs.open_rdwr index_path d).0 ≡ false)
        × ((fs.write index_path index_html (fs.open_rdwr index_path d).1).0
            ≡ pos (length index_html))

  content-create_index_html :
      (d : fs.Disk)
      → WritesPage
      → fs.content index_path (create_index_html fs d).1 ≡ over (fs.content index_path d)
  unfolding create_index_html
  content-create_index_html d writes =
      let (opened, written) = writes d in
      let full = fs.write index_path index_html (fs.open_rdwr index_path d).1 in
      rw (opened, written)
        (keeps.content-close index_path full.1
          ∙ keeps.content-write index_path index_html d (length index_html) opened written
          ∙ ap (λ t. t ++ drop (length index_html) (fs.content index_path d))
              (take_of_length-le (length index_html) index_html (omega arith)))

  content-make_files :
      (m : Machine st fs)
      → WritesPage
      → fs.content index_path (make_files st fs m).disk ≡ over (fs.content index_path m.disk)
  unfolding make_files
  content-make_files m writes =
      content-create_index_html _ writes
      ∙ ap over (
          keeps.content-mkdir index_path _ _
          ∙ keeps.content-mkdir index_path _ _
          ∙ keeps.content-mkdir index_path _ _
          ∙ keeps.content-mkdir index_path _ m.disk)

  content-fs_service_init :
      (d : fs.Disk)
      → is_zero (fs.mount d).0 ≡ true
      → fs.content index_path (fs_service_init fs d).1 ≡ fs.content index_path d
  unfolding fs_service_init mount_or_mkfs
  content-fs_service_init d mounts =
      rw (mounts) (rw (mounts) (keeps.content-mount index_path d mounts))

  disk-start_network : (b : Board) (m : Machine st fs) → (start_network st fs b m).disk ≡ m.disk
  unfolding start_network
  disk-start_network b m = ground arith

  -- A start on which the devices are ready, the disk is mounted and the page is written, puts the test
  -- page over the first bytes of the page that the disk holds, and leaves the bytes behind it.
  pub main_overwrites_index :
      (b : Board) (m : Machine st fs)
      → devices_ready b ≡ true
      → is_zero (fs.mount m.disk).0 ≡ true
      → WritesPage
      → fs.content index_path (main st fs b m).disk ≡ over (fs.content index_path m.disk)
  unfolding main start_services start_io
  main_overwrites_index b m ready mounts writes = rw (ready) (
      content-make_files _ writes
      ∙ ap (λ d. over (fs.content index_path d)) (disk-start_network b _)
      ∙ ap over (content-fs_service_init m.disk mounts))
