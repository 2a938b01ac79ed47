-- ===== src/Web/Path/Segments.antt =====
-- What `path_is_sane` of src/web/http_common.c accepts, by the segments between the slashes.
use cedar_switch_3i3o_power.Common.{
  ℕ, zero, suc, ◌+◌, ◌<◌, ◌≡◌, refl, ◌≢◌, ◌↔◌, ◌⊎◌, inl, inr, true, false, none, some, List, [],
  ◌∷◌, ◌==◌, if◌then◌else◌, arith, length, Bool-cases, Option-cases,
}
use cedar_switch_3i3o_power.Common.CString.{Bytes, codes, strchr}
use cedar_switch_3i3o_power.Web.Path.{bad_segment, sane_loop, path_is_sane}

abbrev prepend : ℕ → List Bytes → List Bytes
prepend c [] = (c ∷ []) ∷ []
prepend c (s ∷ ss) = (c ∷ s) ∷ ss

-- The pieces of a text between the separators; there is always one more piece than separators.
unfoldable pub split_on : ℕ → Bytes → List Bytes
split_on sep [] = [] ∷ []
split_on sep (c ∷ cs) = if c == sep then [] ∷ split_on sep cs else prepend c (split_on sep cs)

pub split_on-some :
    (sep : ℕ) (s before after : Bytes)
    → strchr s sep ≡ some (before, after)
    → split_on sep s ≡ before ∷ split_on sep after
unfolding split_on strchr
split_on-some sep [] before after h = cc
split_on-some sep (c ∷ cs) before after h = elim (Option-cases (strchr cs sep)) [
  | inl n ↦ ground arith
  | inr ((b, a), e) ↦ ground (arith, split_on-some sep cs b a e)
]

pub split_on-none : (sep : ℕ) (s : Bytes) → strchr s sep ≡ none → split_on sep s ≡ s ∷ []
unfolding split_on strchr
split_on-none sep [] h = refl
split_on-none sep (c ∷ cs) h = elim (Option-cases (strchr cs sep)) [
  | inl n ↦ ground (arith, split_on-none sep cs n)
  | inr ((b, a), e) ↦ absurd (ground arith)
]

pub length-strchr :
    (s : Bytes) (c : ℕ) (before after : Bytes)
    → strchr s c ≡ some (before, after)
    → length before + length after + 1 ≡ length s
unfolding strchr
length-strchr [] c before after h = cc
length-strchr (x ∷ xs) c before after h = elim (Option-cases (strchr xs c)) [
  | inl n ↦ ground arith
  | inr ((b, a), e) ↦ ground (arith, length-strchr xs c b a e)
]

-- A segment that names a file or a directory below the current one.
abbrev pub IsPlain : Bytes → Type 0
IsPlain s = (s ≢ []) × (s ≢ codes ".") × (s ≢ codes "..")

-- Every segment is plain, but the last may be empty: the path may end in a slash.
abbrev pub IsSane : List Bytes → Type 0
IsSane [] = Unit
IsSane (s ∷ []) = (s ≡ []) ⊎ IsPlain s
IsSane (s ∷ t ∷ ss) = IsPlain s × IsSane (t ∷ ss)

bad_segment_iff : (s : Bytes) → (bad_segment s ≡ false) ↔ IsPlain s
unfolding bad_segment
bad_segment_iff [] = ground arith
bad_segment_iff (a ∷ []) = ground arith
bad_segment_iff (a ∷ b ∷ []) = ground arith
bad_segment_iff (a ∷ b ∷ c ∷ rest) = ground arith

split_on-cons : (sep : ℕ) (s : Bytes) → (t : Bytes) × (ss : List Bytes) × (split_on sep s ≡ t ∷ ss)
unfolding split_on
split_on-cons sep [] = ([], [], refl)
split_on-cons sep (c ∷ cs) = elim (Bool-cases (c == sep)) [
  | inl e ↦ ([], split_on sep cs, rw (e))
  | inr e ↦ let (t, ss, p) = split_on-cons sep cs in (c ∷ t, ss, rw (e, p))
]

IsSane-cons :
    (s : Bytes) (rest : Bytes)
    → IsSane (s ∷ split_on b'/' rest) ↔ (IsPlain s × IsSane (split_on b'/' rest))
IsSane-cons s rest = let (t, ss, p) = split_on-cons b'/' rest in rw (p) (λ h. h, λ h. h)

sane_loop_iff :
    (fuel : ℕ) (p : Bytes) → length p < fuel → (sane_loop fuel p ≡ true) ↔ IsSane (split_on b'/' p)
unfolding sane_loop
sane_loop_iff zero p h = absurd (omega arith)
sane_loop_iff (suc fuel) [] h = unfold split_on in (λ e. inl refl, λ e. refl)
sane_loop_iff (suc fuel) (c ∷ cs) h = elim (Option-cases (strchr (c ∷ cs) b'/')) [
  | inl n ↦ rw (split_on-none b'/' (c ∷ cs) n) (ground (arith, bad_segment_iff (c ∷ cs)))
  | inr ((segment, rest), e) ↦
      let len = length-strchr (c ∷ cs) b'/' segment rest e in
      let later = sane_loop_iff fuel rest (omega arith) in
      let here = bad_segment_iff segment in
      let cons = IsSane-cons segment rest in
      rw (split_on-some b'/' (c ∷ cs) segment rest e) (ground arith)
]

leading_slash : (c : ℕ) (cs : Bytes) → (c == b'/') ≡ true → ¬ IsSane (split_on b'/' (c ∷ cs))
unfolding split_on
leading_slash c cs e h = let (plain, _) = (IsSane-cons [] cs).0 (rw (e) at h) in plain.0 refl

-- A path is accepted exactly when it is not empty and each segment between slashes is none of "",
-- "." and "..", but that one slash may stand at the end. So it stays below the base directory.
pub path_is_sane_iff :
    (rel : Bytes) → (path_is_sane rel ≡ true) ↔ ((rel ≢ []) × IsSane (split_on b'/' rel))
unfolding path_is_sane
path_is_sane_iff [] = ground arith
path_is_sane_iff (c ∷ cs) = elim (Bool-cases (c == b'/')) [
  | inl e ↦ rw (e) (λ h. cc, λ h. absurd (leading_slash c cs e h.1))
  | inr e ↦
      let loop = sane_loop_iff (suc (length (c ∷ cs))) (c ∷ cs) (omega arith) in
      rw (e) (λ h. ((λ k. cc), loop.0 h), λ h. loop.1 h.1)
]
