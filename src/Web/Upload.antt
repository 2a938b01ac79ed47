-- ===== src/Web/Upload.antt =====
-- src/web/http_common.c, `http_upload`, and src/web/REST_endpoints/webui_upload.c: files of the web
-- interface, sent in pieces to /api/webui/upload?file=…&offset=….
pub mod Guards
pub mod Cursor
use cedar_switch_3i3o_power.Common.{
  ℕ, ◌+◌, ◌*◌, ◌%◌, ◌^◌, Bool, true, false, not, ◌&&◌, ◌||◌, Option, none, some, List, [], ◌∷◌,
  ◌++◌, ltb, leb, ◌==◌, if◌then◌else◌, length, take, ℤ, pos, negsuc, is_neg, e_inval, e_no_mem,
}
use cedar_switch_3i3o_power.Common.CString.{Bytes, codes}
use cedar_switch_3i3o_power.Common.Format.{dec, dec_int, strtol}
use cedar_switch_3i3o_power.Web.Http.{
  Method, http_get, http_post, http_delete, http_put, Request, Response, Handled, respond, is_final,
}
use cedar_switch_3i3o_power.Web.Buffer.{PostBuffer, Received, aborted, too_large, stored, receive}
use cedar_switch_3i3o_power.Web.Path.{path_is_sane}
use cedar_switch_3i3o_power.Web.Query.{query_get}

-- The file system of the operating system, which the program calls and does not implement. A file
-- is named by its path also while it is open.
pub record Fs : Type 1 where
  pub Disk : Type 0
  pub unlink : Bytes → Disk → Disk
  -- The return code, whether the entry is a file, and its size: of the structure that fs_stat
  -- fills in, whatever it holds if the call fails.
  pub stat : Bytes → Disk → ℤ × Bool × ℕ
  pub open_append : Bytes → Disk → ℤ × Disk
  pub write : Bytes → Bytes → Disk → ℤ × Disk
  pub sync : Bytes → Disk → Disk
  pub close : Bytes → Disk → Disk

abbrev pub max_size : ℕ
max_size = 150 * 1024

abbrev pub webui_root : Bytes
webui_root = codes "/lfs/www"

abbrev pub chunk_buf_cap : ℕ
chunk_buf_cap = 512

-- snprintf into an error buffer of 256 bytes
abbrev pub error_text : Bytes → Bytes
error_text text = take 255 (codes "{\"error\":\"" ++ (text ++ codes "\"}"))

abbrev pub abs_path : Bytes → Bytes → Bytes
abs_path base file = base ++ b'/' ∷ file

abbrev pub same_count : ℤ → ℕ → Bool
same_count (pos n) m = n == m
same_count (negsuc n) m = false

module _ (fs : Fs) (base : Bytes) (r : Response) where
  -- From fs_open on.
  unfoldable pub upload_write : Bytes → ℕ → Bytes → fs.Disk → Response × fs.Disk
  upload_write file offset bytes d =
      let path = abs_path base file in
      let opened = fs.open_append path d in
      let written = fs.write path bytes opened.1 in
      if is_neg opened.0
      then (
        respond 400 (error_text (codes "open(" ++ (file ++ (codes "): " ++ dec_int opened.0)))) r,
        opened.1,
      )
      else if not (same_count written.0 (length bytes))
      then (
        respond 500 (error_text (codes "write(" ++ (file ++ (codes "): " ++ dec_int written.0)))) r,
        fs.close path written.1,
      )
      else (respond 200 (dec (offset + length bytes)) r, fs.close path (fs.sync path written.1))

  -- From the test of the path's length on: `offset == 0` truncates, and any other offset has to be
  -- the size of the file.
  unfoldable pub upload_file : Bytes → ℕ → Bytes → fs.Disk → Response × fs.Disk
  upload_file file offset bytes d =
      let path = abs_path base file in
      let d' = if offset == 0 then fs.unlink path d else d in
      let found = fs.stat path d' in
      if leb 256 (length path)
      then (respond 400 (error_text (codes "path too long")) r, d)
      else if not found.1 && not (is_neg found.0)
      then (respond 400 (error_text (file ++ codes " is not a file, it's dir")) r, d')
      else if not (offset == 0) && not (offset == found.2)
      then (respond 400 (error_text (file ++ codes ": offset mismatch")) r, d')
      else upload_write file offset bytes d'

  -- From the offset's conversion on; the sum is a size_t of 32 bits.
  unfoldable pub upload_at : Bytes → ℤ → Bytes → fs.Disk → Response × fs.Disk
  upload_at file (negsuc n) bytes d = (respond 400 (error_text (codes "offset < 0")) r, d)
  upload_at file (pos offset) bytes d =
      if ltb max_size ((offset + length bytes) % 2 ^ 32)
      then (respond 400 (error_text (file ++ (codes " over max size of " ++ dec max_size))) r, d)
      else upload_file file offset bytes d

  -- `bytes` are the first `request_body_len` bytes of the buffer. The function returns 0.
  unfoldable pub http_upload : Bytes → Bytes → fs.Disk → Response × fs.Disk
  unfolding upload_at
  http_upload url bytes d = elim (query_get url (codes "file") 192) [
    | none ↦ (respond 400 (error_text (codes "file required")) r, d)
    | some file ↦
        if not (path_is_sane file)
        then (respond 400 (error_text (codes "invalid file")) r, d)
        else elim (query_get url (codes "offset") 32) [
          | none ↦ (respond 400 (error_text (codes "offset required")) r, d)
          | some offset_str ↦ upload_at file (strtol offset_str) bytes d
        ]
  ]

module _ (fs : Fs) where
  -- The handler's static variables, and the disk.
  pub record UploadState : Type 0 where
    pub post : PostBuffer
    pub disk : fs.Disk

  unfoldable pub webui_chunk_put : Request → Response → UploadState → Handled UploadState
  webui_chunk_put req r s = elim req.method [
    | http_post ↦ elim (receive req.status req.chunk s.post) [
      | aborted post ↦ record { rc = pos 0; response = r; state = record s { post = post } }
      | too_large post ↦ record { rc = e_no_mem; response = r; state = record s { post = post } }
      | stored post ↦
          let done = http_upload fs webui_root r req.url (take post.cursor post.buff) s.disk in
          if is_final req.status
          then record {
            rc = pos 0;
            response = done.0;
            state = record { post = post; disk = done.1 };
          }
          else record { rc = pos 0; response = r; state = record s { post = post } }
    ]
    | http_get ↦ record { rc = e_inval; response = r; state = s }
    | http_delete ↦ record { rc = e_inval; response = r; state = s }
    | http_put ↦ record { rc = e_inval; response = r; state = s }
  ]
