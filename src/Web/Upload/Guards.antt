-- ===== src/Web/Upload/Guards.antt =====
-- What `http_upload` of src/web/http_common.c has established when it touches the file system.
use cedar_switch_3i3o_power.Common.{
  ℕ, ◌+◌, ◌%◌, ◌^◌, ◌≤◌, ◌≡◌, refl, ◌≢◌, ◌⊎◌, inl, inr, true, [], some, arith, length, ltb, ℤ, pos,
  negsuc, Bool-cases, Option-cases,
}
use cedar_switch_3i3o_power.Common.CString.{Bytes, codes}
use cedar_switch_3i3o_power.Common.Format.{strtol}
use cedar_switch_3i3o_power.Web.Http.{Response}
use cedar_switch_3i3o_power.Web.Path.{path_is_sane}
use cedar_switch_3i3o_power.Web.Path.Segments.{IsSane, split_on, path_is_sane_iff}
use cedar_switch_3i3o_power.Web.Query.{query_get}
use cedar_switch_3i3o_power.Web.Upload.{Fs, max_size, upload_file, upload_at, http_upload}

-- The parameters of a request that may change the file system.
pub record IsAllowed (url bytes file : Bytes) (offset : ℕ) : Type 0 where
  pub named : query_get url (codes "file") 192 ≡ some file
  pub sane : (file ≢ []) × IsSane (split_on b'/' file)
  pub at : (s : Bytes) × (query_get url (codes "offset") 32 ≡ some s) × (strtol s ≡ pos offset)
  pub bounded : (offset + length bytes) % 2 ^ 32 ≤ max_size

abbrev Guarded :
    (fs : Fs) → Bytes → Response → Bytes → Bytes → fs.Disk → Response × fs.Disk → Type 0
Guarded fs base r url bytes d done =
    (((done.1 ≡ d) × (done.0.status ≡ 400))
      ⊎ ((file : Bytes) × (offset : ℕ) × IsAllowed url bytes file offset
          × (done ≡ upload_file fs base r file offset bytes d)))

upload_at-Guarded :
    (fs : Fs) (base : Bytes) (r : Response) (url bytes file text : Bytes) (d : fs.Disk)
    → query_get url (codes "file") 192 ≡ some file
    → path_is_sane file ≡ true
    → query_get url (codes "offset") 32 ≡ some text
    → (n : ℤ) → strtol text ≡ n
    → Guarded fs base r url bytes d (upload_at fs base r file n bytes d)
unfolding upload_at
upload_at-Guarded fs base r url bytes file text d named sane given (negsuc n) e = inl (refl, refl)
upload_at-Guarded fs base r url bytes file text d named sane given (pos offset) e =
    elim (Bool-cases (ltb max_size ((offset + length bytes) % 2 ^ 32))) [
      | inl over ↦ inl (rw (over) (refl, refl))
      | inr fits ↦ inr (
        file,
        offset,
        record {
          named = named;
          sane = (path_is_sane_iff file).0 sane;
          at = (text, given, e);
          bounded = ground arith;
        },
        rw (fits) refl,
      )
    ]

-- A request leaves the disk alone, or is the upload of a sane path within the size limit; then the
-- disk and the answer are those of the write of that file under the base directory.
pub http_upload_guarded :
    (fs : Fs) (base : Bytes) (r : Response) (url bytes : Bytes) (d : fs.Disk)
    → (((http_upload fs base r url bytes d).1 ≡ d)
        × ((http_upload fs base r url bytes d).0.status ≡ 400))
      ⊎ ((file : Bytes) × (offset : ℕ) × IsAllowed url bytes file offset
          × (http_upload fs base r url bytes d ≡ upload_file fs base r file offset bytes d))
unfolding http_upload
http_upload_guarded fs base r url bytes d = elim (Option-cases (query_get url (codes "file") 192)) [
  | inl n ↦ inl (rw (n, http_upload) (refl, refl))
  | inr (file, named) ↦ elim (Bool-cases (path_is_sane file)) [
    | inr bad ↦ inl (rw (named, http_upload) (rw (bad) (refl, refl)))
    | inl sane ↦ elim (Option-cases (query_get url (codes "offset") 32)) [
      | inl n ↦ inl (rw (named, http_upload) (rw (sane) (rw (n) (refl, refl))))
      | inr (text, given) ↦
          let whole : http_upload fs base r url bytes d
              ≡ upload_at fs base r file (strtol text) bytes d =
            rw (named, http_upload) (rw (sane) (rw (given) refl)) in
          rw (whole)
            (upload_at-Guarded fs base r url bytes file text d named sane given (strtol text) refl)
    ]
  ]
]
