-- ===== src/Web/Delete/Files.antt =====
-- The deletion endpoint (src/web/REST_endpoints/webui_delete.c) on a directory of files.
use cedar_switch_3i3o_power.Common.{
  ℕ, ◌+◌, ◌≤◌, ◌≡◌, refl, false, some, List, All, length, ℤ, pos, is_neg,
}
use cedar_switch_3i3o_power.Common.CString.{Bytes}
use cedar_switch_3i3o_power.Web.Http.{http_delete, data_final, Request, Response}
use cedar_switch_3i3o_power.Web.Upload.{webui_root}
use cedar_switch_3i3o_power.Littlefs.Walk.{Entry, FileSystem}
use cedar_switch_3i3o_power.Littlefs.Flat.{Listing, IsFileIn, delete_files, fs_delete_tree_files}
use cedar_switch_3i3o_power.Web.Delete.{
  delete_web_ui_files, delete_response, delete_answer_of, webui_delete_handler,
}

module _ (fs : FileSystem) (l : Listing fs) (fs_mkdir : Bytes → fs.Disk → ℤ × fs.Disk) where
  -- What is left to do once the files are gone: the second unlinking of the directory, and its creation.
  abbrev pub make_again : fs.Disk → ℤ × fs.Disk
  make_again disk = fs_mkdir webui_root (fs.fs_unlink webui_root disk).1

  -- The last chunk of a DELETE, where the web directory holds only files with names that fit, is
  -- answered: the files are unlinked in their order and then the directory, up to the first failure,
  -- and whether it answers 200 or 500 is up to the creation of the directory alone; for every fuel
  -- above the number of files by two.
  pub delete_handler_files :
      (req : Request) (r : Response) (es : List Entry) (disk : fs.Disk) (fuel : ℕ)
      → req.method ≡ http_delete
      → req.status ≡ data_final
      → is_neg (fs.fs_opendir webui_root disk).0 ≡ false
      → l.entries (fs.fs_opendir webui_root disk).1 ≡ es
      → All (IsFileIn webui_root) es
      → length es + 2 ≤ fuel
      → let made = make_again (delete_files fs l webui_root es disk).1 in
        webui_delete_handler fs fs_mkdir fuel req r disk
        ≡ some
            (record { rc = pos 0; response = delete_response fs fs_mkdir made.0 r; state = made.1 })
  unfolding webui_delete_handler delete_web_ui_files
  delete_handler_files req r es disk fuel method status opens listed files h =
      rw (method, status)
        (rw
          (
            delete_answer_of,
            delete_web_ui_files,
            fs_delete_tree_files fs l webui_root es disk fuel refl opens listed files h,
          )
          refl)
