-- ===== src/Web/Mkdir.antt =====
-- src/web/REST_endpoints/webui_mkdir.c: the endpoint that creates a directory of the web interface.
pub mod Unchecked
pub mod Accepted
use cedar_switch_3i3o_power.Common.{
  ℕ, Bool, true, false, List, [], ◌∷◌, ◌++◌, ◌==◌, leb, if◌then◌else◌, length, ℤ, pos, negsuc,
  is_neg, e_no_mem,
}
use cedar_switch_3i3o_power.Common.CString.{Bytes, codes}
use cedar_switch_3i3o_power.Web.Http.{
  http_get, http_post, http_delete, http_put, Request, Response, Handled, respond, is_final,
}
use cedar_switch_3i3o_power.Web.Buffer.{
  PostBuffer, aborted, too_large, stored, receive, reset, body,
}
use cedar_switch_3i3o_power.Web.Relays.{invalid_json}
use cedar_switch_3i3o_power.Web.Upload.{webui_root, abs_path}

-- `disk` is the state of the file system, and `fs_mkdir` the operating system's call.
module _ (Disk : Type 0) (fs_mkdir : Bytes → Disk → ℤ × Disk) where
  unfoldable pub mkdir_web_ui_files : Bytes → Disk → ℤ × Disk
  mkdir_web_ui_files [] d = (negsuc 0, d)
  mkdir_web_ui_files (c ∷ cs) d =
      let path_to_create = abs_path webui_root (c ∷ cs) in
      if c == b'/'
      then (negsuc 0, d)
      else if leb 256 (length path_to_create)
      then (negsuc 0, d)
      else fs_mkdir path_to_create d

  -- The handler's static variables, and the disk.
  pub record MkdirRest : Type 0 where
    pub post : PostBuffer
    pub disk : Disk

  -- `parse` is `json_obj_parse` with the descriptor of the path.
  module _ (parse : Bytes → ℤ × Bytes) where
    -- `ret == expected`, with BIT_MASK(1)
    abbrev pub has_path : ℤ → Bool
    has_path (pos n) = n == 1
    has_path (negsuc n) = false

    unfoldable pub finish_mkdir : Response → MkdirRest → Handled MkdirRest
    finish_mkdir r s =
        let parsed = parse (body s.post) in
        let s' : MkdirRest = record s { post = reset s.post } in
        let made = mkdir_web_ui_files parsed.1 s.disk in
        let s'' : MkdirRest = record s' { disk = made.1 } in
        if has_path parsed.0
        then (if is_neg made.0
            then record {
              rc = pos 0;
              response = respond 500 (codes "{\"error\":\"err creating web ui dir\"}") r;
              state = s'';
            }
            else record {
              rc = pos 0;
              response = respond 200 (codes "{\"success\":\"web ui dir created\"}") r;
              state = s'';
            })
        else record { rc = pos 0; response = respond 400 invalid_json r; state = s' }

    unfoldable pub mkdir_handler : Request → Response → MkdirRest → Handled MkdirRest
    mkdir_handler req r s = elim req.method [
      | http_post ↦ elim (receive req.status req.chunk s.post) [
        | aborted post ↦ record { rc = pos 0; response = r; state = record s { post = post } }
        | too_large post ↦ record { rc = e_no_mem; response = r; state = record s { post = post } }
        | stored post ↦
            let s' : MkdirRest = record s { post = post } in
            if is_final req.status
            then finish_mkdir r s'
            else record { rc = pos 0; response = r; state = s' }
      ]
      | http_get ↦ record { rc = negsuc 0; response = r; state = s }
      | http_delete ↦ record { rc = negsuc 0; response = r; state = s }
      | http_put ↦ record { rc = negsuc 0; response = r; state = s }
    ]
