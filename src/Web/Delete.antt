-- ===== src/Web/Delete.antt =====
-- src/web/REST_endpoints/webui_delete.c: the endpoint that deletes the files of the web interface.
pub mod Files
use cedar_switch_3i3o_power.Common.{
  ℕ, Bool, true, false, Option, none, some, List, if◌then◌else◌, ℤ, pos, negsuc, is_zero,
}
use cedar_switch_3i3o_power.Common.CString.{Bytes, codes}
use cedar_switch_3i3o_power.Web.Http.{
  http_get, http_post, http_delete, http_put, data_aborted, data_more, data_final, Request,
  Response, Handled, respond,
}
use cedar_switch_3i3o_power.Web.Upload.{webui_root}
use cedar_switch_3i3o_power.Littlefs.Walk.{FileSystem, fs_delete_tree}

-- `fuel` is that of the walk, `none` its end.
module _ (fs : FileSystem) (fs_mkdir : Bytes → fs.Disk → ℤ × fs.Disk) where
  -- The code of the walk and that of the unlinking are dropped.
  unfoldable pub delete_web_ui_files : ℕ → fs.Disk → Option (ℤ × fs.Disk)
  delete_web_ui_files fuel disk = elim (fs_delete_tree fs fuel webui_root disk) [
    | none ↦ none
    | some (rc, later) ↦ some (fs_mkdir webui_root (fs.fs_unlink webui_root later).1)
  ]

  abbrev pub delete_response : ℤ → Response → Response
  delete_response rc r =
      if is_zero rc
      then respond 200 (codes "{\"success\":\"web ui files deleted\"}") r
      else respond 500 (codes "{\"error\":\"err deleting web ui files\"}") r

  abbrev pub delete_answer_of : Response → Option (ℤ × fs.Disk) → Option (Handled fs.Disk)
  delete_answer_of r none = none
  delete_answer_of r (some (rc, disk)) =
      some (record { rc = pos 0; response = delete_response rc r; state = disk })

  abbrev pub untouched : ℤ → Response → fs.Disk → Option (Handled fs.Disk)
  untouched rc r disk = some (record { rc = rc; response = r; state = disk })

  unfoldable pub webui_delete_handler : ℕ → Request → Response → fs.Disk → Option (Handled fs.Disk)
  webui_delete_handler fuel req r disk = elim req.method [
    | http_delete ↦ elim req.status [
      | data_aborted ↦ untouched (pos 0) r disk
      | data_more ↦ untouched (pos 0) r disk
      | data_final ↦ delete_answer_of r (delete_web_ui_files fuel disk)
    ]
    | http_get ↦ untouched (negsuc 0) r disk
    | http_post ↦ untouched (negsuc 0) r disk
    | http_put ↦ untouched (negsuc 0) r disk
  ]
