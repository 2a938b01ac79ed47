-- ===== src/Web/Mkdir/Accepted.antt =====
-- The paths that `mkdir_web_ui_files` of src/web/REST_endpoints/webui_mkdir.c accepts, and the chunks
-- that the handler receives.
use cedar_switch_3i3o_power.Common.{
  ◌+◌, ◌≤◌, ◌≡◌, refl, ◌≢◌, ◌⊎◌, inl, inr, true, false, [], ◌∷◌, ◌==◌, leb, ltb, arith, Bool-cases,
  length, ℤ, negsuc,
}
use cedar_switch_3i3o_power.Common.CString.{Bytes}
use cedar_switch_3i3o_power.Web.Http.{data_more, data_final}
use cedar_switch_3i3o_power.Web.Buffer.{PostBuffer, write_at, too_large, stored, receive, reset}
use cedar_switch_3i3o_power.Web.Upload.{webui_root, abs_path}
use cedar_switch_3i3o_power.Web.Mkdir.{mkdir_web_ui_files}

-- All that is asked of a path: it is not empty, does not begin with a slash, and fits the buffer
-- behind the base directory. Nothing is asked of its segments.
abbrev pub IsAccepted : Bytes → Type 0
IsAccepted [] = ⊥
IsAccepted (c ∷ cs) = (c ≢ b'/') × (length (abs_path webui_root (c ∷ cs)) ≤ 255)

pub receive_large :
    (chunk : Bytes) (b : PostBuffer)
    → ltb (length b.buff) (length chunk + b.cursor) ≡ true
    → receive data_final chunk b ≡ too_large (reset b)
unfolding receive
receive_large chunk b large = rw (large) refl

pub receive_part :
    (chunk : Bytes) (b : PostBuffer)
    → ltb (length b.buff) (length chunk + b.cursor) ≡ true
    → receive data_more chunk b ≡ too_large (reset b)
unfolding receive
receive_part chunk b large = rw (large) refl

abbrev pub with_chunk : Bytes → PostBuffer → PostBuffer
with_chunk chunk b = record {
  buff = write_at b.buff b.cursor chunk;
  cursor = b.cursor + length chunk;
}

pub receive_room :
    (chunk : Bytes) (b : PostBuffer)
    → ltb (length b.buff) (length chunk + b.cursor) ≡ false
    → receive data_more chunk b ≡ stored (with_chunk chunk b)
unfolding receive
receive_room chunk b room = rw (room) refl

module _ (Disk : Type 0) (fs_mkdir : Bytes → Disk → ℤ × Disk) where
  -- A path is accepted and handed to fs_mkdir, or refused with the disk as it was.
  pub mkdir_files-cases :
      (path : Bytes) (d : Disk)
      → (IsAccepted path
          × (mkdir_web_ui_files Disk fs_mkdir path d ≡ fs_mkdir (abs_path webui_root path) d))
        ⊎ (¬ IsAccepted path × (mkdir_web_ui_files Disk fs_mkdir path d ≡ (negsuc 0, d)))
  unfolding mkdir_web_ui_files
  mkdir_files-cases [] d = inr (λ h. h, refl)
  mkdir_files-cases (c ∷ cs) d = elim (Bool-cases (c == b'/')) [
    | inl slash ↦ rw (slash) (inr (λ (h, _). h (ground arith), refl))
    | inr plain ↦ elim (Bool-cases (leb 256 (length (abs_path webui_root (c ∷ cs))))) [
      | inl long ↦ inr (λ (_, h). ground arith, rw (plain, long) refl)
      | inr fits ↦ inl ((λ e. ground arith, ground arith), rw (plain, fits) refl)
    ]
  ]
