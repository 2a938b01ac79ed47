-- ===== src/Web/Path.antt =====
-- src/web/http_common.c: `path_is_sane`, the test of an uploaded file's relative path.
pub mod Segments
use cedar_switch_3i3o_power.Common.{
  ℕ, zero, suc, Bool, true, false, ◌&&◌, Option, none, some, List, [], ◌∷◌, ◌==◌, if◌then◌else◌,
  length,
}
use cedar_switch_3i3o_power.Common.CString.{Bytes, strchr}

-- The three tests of `seglen` and of the segment's first bytes.
unfoldable pub bad_segment : Bytes → Bool
bad_segment [] = true
bad_segment (a ∷ []) = a == b'.'
bad_segment (a ∷ b ∷ []) = a == b'.' && b == b'.'
bad_segment (a ∷ b ∷ c ∷ rest) = false

-- The loop over the segments; every round but the last drops a slash, so the length is fuel enough.
unfoldable pub sane_loop : ℕ → Bytes → Bool
sane_loop zero p = false
sane_loop (suc fuel) [] = true
sane_loop (suc fuel) (c ∷ cs) = elim (strchr (c ∷ cs) b'/') [
  | none ↦ if bad_segment (c ∷ cs) then false else true
  | some (segment, rest) ↦
      let later = sane_loop fuel rest in if bad_segment segment then false else later
]

unfoldable pub path_is_sane : Bytes → Bool
path_is_sane [] = false
path_is_sane (c ∷ cs) = if c == b'/' then false else sane_loop (suc (length (c ∷ cs))) (c ∷ cs)
