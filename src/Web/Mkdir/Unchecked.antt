-- ===== src/Web/Mkdir/Unchecked.antt =====
-- Which directories the endpoint of src/web/REST_endpoints/webui_mkdir.c creates.
use cedar_switch_3i3o_power.Common.{
  ◌+◌, ◌≤◌, ◌≡◌, refl, ap, sym, subst, ◌⊎◌, inl, inr, Bool, true, ◌++◌, ltb, arith, Bool-cases,
  if◌then◌else◌, length, ℤ, pos, negsuc, e_no_mem, is_neg,
}
use cedar_switch_3i3o_power.Common.CString.{Bytes}
use cedar_switch_3i3o_power.Web.Http.{
  Method, http_get, http_post, http_delete, http_put, DataStatus, data_aborted, data_more,
  data_final, Request, Response, Handled,
}
use cedar_switch_3i3o_power.Web.Buffer.{PostBuffer, too_large, stored, receive, body, reset}
use cedar_switch_3i3o_power.Web.Buffer.Collect.{receive_final}
use cedar_switch_3i3o_power.Web.Upload.{webui_root, abs_path}
use cedar_switch_3i3o_power.Web.Mkdir.{has_path, MkdirRest, finish_mkdir, mkdir_handler}
use cedar_switch_3i3o_power.Web.Mkdir.Accepted.{
  IsAccepted, receive_large, receive_part, with_chunk, receive_room, mkdir_files-cases,
}

module _ (Disk : Type 0) (fs_mkdir : Bytes → Disk → ℤ × Disk) (parse : Bytes → ℤ × Bytes) where
  -- A request that completes a body with an accepted path.
  abbrev pub Reaches : Request → MkdirRest Disk fs_mkdir → Bytes → Type 0
  Reaches req s path =
      (req.method ≡ http_post)
      × (req.status ≡ data_final)
      × (s.post.cursor + length req.chunk ≤ length s.post.buff)
      × (parse (body s.post ++ req.chunk) ≡ (pos 1, path))
      × IsAccepted path

  -- The disk is as it was, and the answer is none of the handler's answers 200.
  abbrev pub IsRefused :
      Response → MkdirRest Disk fs_mkdir → Handled (MkdirRest Disk fs_mkdir) → Type 0
  IsRefused r s out =
      (out.state.disk ≡ s.disk)
      × ((out.response ≡ r) ⊎ (out.response.status ≡ 400) ⊎ (out.response.status ≡ 500))

  -- What fs_mkdir has done of the path, and its success as the answer; the buffer is empty.
  abbrev pub IsMade : Bytes → MkdirRest Disk fs_mkdir → Handled (MkdirRest Disk fs_mkdir) → Type 0
  IsMade path s out =
      let made = fs_mkdir (abs_path webui_root path) s.disk in
      (out.state.disk ≡ made.1)
      × (out.response.status ≡ (if is_neg made.0 then 500 else 200))
      × (out.state.post.cursor ≡ 0)

  path_parsed : (z : ℤ) → has_path Disk fs_mkdir parse z ≡ true → z ≡ pos 1
  path_parsed (pos n) h = ap pos (ground arith)
  path_parsed (negsuc n) h = cc

  finish_mkdir-cases :
      (r : Response) (s : MkdirRest Disk fs_mkdir)
      → ((path : Bytes) × (parse (body s.post) ≡ (pos 1, path))
          × IsAccepted path
          × IsMade path s (finish_mkdir Disk fs_mkdir parse r s))
        ⊎ (((path : Bytes) → parse (body s.post) ≡ (pos 1, path) → ¬ IsAccepted path)
            × IsRefused r s (finish_mkdir Disk fs_mkdir parse r s))
  unfolding finish_mkdir
  finish_mkdir-cases r s =
      let parsed = parse (body s.post) in
      elim (Bool-cases (has_path Disk fs_mkdir parse parsed.0)) [
        | inr none ↦ inr (
          λ path e h.
              let some_path : has_path Disk fs_mkdir parse parsed.0 ≡ true =
                ap (λ p. has_path Disk fs_mkdir parse p.0) e in
              cc,
          rw (none) (refl, inr (inl refl)),
        )
        | inl one ↦ elim (mkdir_files-cases Disk fs_mkdir parsed.1 s.disk) [
          | inl (accepted, made) ↦ inl (
            parsed.1,
            ap (λ z. (z, parsed.1)) (path_parsed parsed.0 one),
            accepted,
            elim (Bool-cases (is_neg (fs_mkdir (abs_path webui_root parsed.1) s.disk).0)) [
              | inl failed ↦ rw (one, made, failed) (refl, refl, refl)
              | inr ok ↦ rw (one, made, ok) (refl, refl, refl)
            ],
          )
          | inr (refused, same) ↦ inr (
            λ path e h. refused (subst IsAccepted (ap (λ p. p.1) (sym e)) h),
            rw (one, same) (refl, inr (inr refl)),
          )
        ]
      ]

  abbrev Decided : Request → Response → MkdirRest Disk fs_mkdir → Type 0
  Decided req r s =
      ((path : Bytes) × Reaches req s path
        × IsMade path s (mkdir_handler Disk fs_mkdir parse req r s))
      ⊎ (((path : Bytes) → ¬ Reaches req s path)
          × IsRefused r s (mkdir_handler Disk fs_mkdir parse req r s))

  abbrev fits_buffer : Request → MkdirRest Disk fs_mkdir → Bool
  fits_buffer req s = ltb (length s.post.buff) (length req.chunk + s.post.cursor)

  -- A chunk that does not fit.
  mkdir_large :
      (req : Request) (r : Response) (s : MkdirRest Disk fs_mkdir) (b : PostBuffer)
      → req.method ≡ http_post
      → receive req.status req.chunk s.post ≡ too_large b
      → IsRefused r s (mkdir_handler Disk fs_mkdir parse req r s)
  unfolding mkdir_handler
  mkdir_large req r s b post large =
      let result : mkdir_handler Disk fs_mkdir parse req r s
          ≡ record { rc = e_no_mem; response = r; state = record s { post = b } } =
        rw (post, mkdir_handler) (rw (large) refl) in
      rw (result) (refl, inl refl)

  mkdir_stored :
      (req : Request) (r : Response) (s : MkdirRest Disk fs_mkdir) (b : PostBuffer)
      → req.method ≡ http_post
      → req.status ≡ data_more
      → receive req.status req.chunk s.post ≡ stored b
      → IsRefused r s (mkdir_handler Disk fs_mkdir parse req r s)
  unfolding mkdir_handler
  mkdir_stored req r s b post more room =
      let result : mkdir_handler Disk fs_mkdir parse req r s
          ≡ record { rc = pos 0; response = r; state = record s { post = b } } =
        rw (post, mkdir_handler) (rw (room) (rw (more) refl)) in
      rw (result) (refl, inl refl)

  mkdir_final :
      (req : Request) (r : Response) (s : MkdirRest Disk fs_mkdir)
      → req.method ≡ http_post
      → req.status ≡ data_final
      → Decided req r s
  unfolding mkdir_handler
  mkdir_final req r s post last = elim (Bool-cases (fits_buffer req s)) [
    | inl large ↦ inr (
      λ path (_, _, fits, _, _). ground arith,
      mkdir_large req r s (reset s.post) post (rw (last) (receive_large req.chunk s.post large)),
    )
    | inr room ↦
        let fits : s.post.cursor + length req.chunk ≤ length s.post.buff = ground arith in
        let (b, received, read, _, _) = receive_final req.chunk s.post fits in
        let stored_all : receive req.status req.chunk s.post ≡ stored b = rw (last) received in
        let result : mkdir_handler Disk fs_mkdir parse req r s
            ≡ finish_mkdir Disk fs_mkdir parse r (record s { post = b }) =
          rw (post, mkdir_handler) (rw (stored_all) (rw (last) refl)) in
        elim (finish_mkdir-cases r (record s { post = b })) [
          | inl (path, parsed, accepted, made) ↦
              inl (path, (post, last, fits, (rw (sym read) parsed), accepted), rw (result) made)
          | inr (never, refused) ↦ inr (
            λ path (_, _, _, parsed, accepted). never path (rw (read) parsed) accepted,
            rw (result) refused,
          )
        ]
  ]

  mkdir_part :
      (req : Request) (r : Response) (s : MkdirRest Disk fs_mkdir)
      → req.method ≡ http_post
      → req.status ≡ data_more
      → Decided req r s
  mkdir_part req r s post more = inr (
    λ path (_, last, _, _, _). cc,
    elim (Bool-cases (fits_buffer req s)) [
      | inl large ↦
          mkdir_large req r s (reset s.post) post (rw (more) (receive_part req.chunk s.post large))
      | inr room ↦
          mkdir_stored req r s (with_chunk req.chunk s.post) post more
            (rw (more) (receive_room req.chunk s.post room))
    ],
  )

  mkdir_post :
      (status : DataStatus) (req : Request) (r : Response) (s : MkdirRest Disk fs_mkdir)
      → req.method ≡ http_post
      → req.status ≡ status
      → Decided req r s
  unfolding mkdir_handler receive
  mkdir_post data_aborted req r s post stop =
      inr (λ path (_, last, _, _, _). cc, rw (post, stop) (refl, inl refl))
  mkdir_post data_more req r s post more = mkdir_part req r s post more
  mkdir_post data_final req r s post last = mkdir_final req r s post last

  mkdir_any :
      (method : Method) (req : Request) (r : Response) (s : MkdirRest Disk fs_mkdir)
      → req.method ≡ method
      → Decided req r s
  unfolding mkdir_handler
  mkdir_any http_get req r s e = inr (λ path (post, _, _, _, _). cc, rw (e) (refl, inl refl))
  mkdir_any http_delete req r s e = inr (λ path (post, _, _, _, _). cc, rw (e) (refl, inl refl))
  mkdir_any http_put req r s e = inr (λ path (post, _, _, _, _). cc, rw (e) (refl, inl refl))
  mkdir_any http_post req r s e = mkdir_post req.status req r s e refl

  -- The handler calls fs_mkdir exactly for a request that completes a body with a path which is not
  -- empty, does not begin with a slash and fits; it asks nothing of the path's segments, so that
  -- ".." leaves the base directory. It answers 200 if that call succeeds and 500 if not, and
  -- empties the buffer. For every other request the disk stays as it is, and the answer is 400, 500
  -- or the one that was there.
  pub mkdir_unchecked :
      (req : Request) (r : Response) (s : MkdirRest Disk fs_mkdir)
      → ((path : Bytes) × Reaches req s path
          × IsMade path s (mkdir_handler Disk fs_mkdir parse req r s))
        ⊎ (((path : Bytes) → ¬ Reaches req s path)
            × IsRefused r s (mkdir_handler Disk fs_mkdir parse req r s))
  mkdir_unchecked req r s = mkdir_any req.method req r s refl
