-- ===== src/Web/Upload/Cursor.antt =====
-- src/web/REST_endpoints/webui_upload.c: the handler does not reset its cursor after a request.
use cedar_switch_3i3o_power.Common.{◌+◌, ◌≤◌, ◌≡◌, refl, ◌∙◌, ap, ◌++◌, arith, length, pos}
use cedar_switch_3i3o_power.Web.Http.{http_post, data_final, Request, Response}
use cedar_switch_3i3o_power.Web.Buffer.{stored, receive, body}
use cedar_switch_3i3o_power.Web.Buffer.Collect.{receive_final}
use cedar_switch_3i3o_power.Web.Upload.{Fs, UploadState, webui_root, http_upload, webui_chunk_put}

-- A request whose whole body is one chunk.
pub record IsUpload (req : Request) : Type 0 where
  pub is_post : req.method ≡ http_post
  pub is_last : req.status ≡ data_final

module _ (fs : Fs) where
  put_final :
      (req : Request) (r : Response) (s : UploadState fs)
      → IsUpload req
      → s.post.cursor + length req.chunk ≤ length s.post.buff
      → (body (webui_chunk_put fs req r s).state.post ≡ body s.post ++ req.chunk)
        × ((webui_chunk_put fs req r s).state.post.cursor ≡ s.post.cursor + length req.chunk)
        × (length (webui_chunk_put fs req r s).state.post.buff ≡ length s.post.buff)
        × ((webui_chunk_put fs req r s).state.disk
            ≡ (http_upload fs webui_root r req.url (body s.post ++ req.chunk) s.disk).1)
  unfolding webui_chunk_put
  put_final req r s u fits =
      let (b', e, read, size, cursor) = receive_final req.chunk s.post fits in
      let e' : receive req.status req.chunk s.post ≡ stored b' = rw (u.is_last) e in
      let done = http_upload fs webui_root r req.url (body b') s.disk in
      let result : webui_chunk_put fs req r s
          ≡ record { rc = pos 0; response = done.0; state = record { post = b'; disk = done.1 } } =
        rw (u.is_post, webui_chunk_put) (rw (e') (rw (u.is_last) refl)) in
      rw (result)
        (read, cursor, size, ap (λ b. (http_upload fs webui_root r req.url b s.disk).1) read)

  -- Of two uploads of one chunk each which fit the buffer together, begun with an empty buffer, the
  -- second hands to http_upload the bytes of the first again before its own, so that the disk is
  -- what that call makes of them all.
  pub second_upload :
      (first second : Request) (r r' : Response) (s : UploadState fs)
      → IsUpload first
      → IsUpload second
      → s.post.cursor ≡ 0
      → length first.chunk + length second.chunk ≤ length s.post.buff
      → (webui_chunk_put fs second r' (webui_chunk_put fs first r s).state).state.disk
        ≡ (http_upload fs webui_root r' second.url
            (first.chunk ++ second.chunk)
            (webui_chunk_put fs first r s).state.disk).1
  second_upload first second r r' s u v empty fits =
      let (bytes, cursor, size, _) = put_final first r s u (omega arith) in
      let (_, _, _, disk) =
        put_final second r' (webui_chunk_put fs first r s).state v (omega arith) in
      let whole : body s.post ++ first.chunk ≡ first.chunk = rw (empty) refl in
      disk
      ∙ ap
          (λ b.
            (http_upload fs webui_root r' second.url (b ++ second.chunk)
              (webui_chunk_put fs first r s).state.disk).1)
          (bytes ∙ whole)
