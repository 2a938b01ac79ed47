-- ===== src/Common/CString.antt =====
-- The functions of string.h and strings.h that the program calls. A C string is the list of its
-- bytes before the terminator; a `char` array that holds one is the string in it.
use Prim.Native.Char.{code}
use Prim.Native.String.{String}
use Prim.Native.Nat.{ℕ, ◌+◌}
use mathlib.Core.Path.{◌≡◌, refl}
use mathlib.Core.Logic.{◌↔◌, ◌≢◌, ◌⊎◌, inl, inr}
use mathlib.Core.Bool.{Bool, true, false, ◌&&◌}
use mathlib.Core.Option.{Option, none, some}
use mathlib.Core.List.{List, [], ◌∷◌, ◌++◌, map}
use native.Mathlib.Omega.{arith}
use cedar_switch_3i3o_power.Common.Tests.{leb, ◌==◌, if◌then◌else◌, Option-cases}
use cedar_switch_3i3o_power.Common.Lists.{take, All}

abbrev pub Bytes : Type 0
Bytes = List ℕ

-- The bytes of an ASCII literal.
abbrev pub codes : String → Bytes
codes String.[] = []
codes (String.◌∷◌ c s) = code c ∷ codes s

-- What printf writes for the parts of a format, one after the other.
abbrev pub parts : List Bytes → Bytes
parts [] = []
parts (text ∷ texts) = text ++ parts texts

-- strcmp(a, b) == 0, and memcmp of blocks of one length
unfoldable pub bytes_eq : Bytes → Bytes → Bool
bytes_eq [] [] = true
bytes_eq [] (y ∷ ys) = false
bytes_eq (x ∷ xs) [] = false
bytes_eq (x ∷ xs) (y ∷ ys) = x == y && bytes_eq xs ys

bytes_eq_sound : (a b : Bytes) → bytes_eq a b ≡ true → a ≡ b
unfolding bytes_eq
bytes_eq_sound [] [] h = refl
bytes_eq_sound [] (y ∷ ys) h = cc
bytes_eq_sound (x ∷ xs) [] h = cc
bytes_eq_sound (x ∷ xs) (y ∷ ys) h = ground (arith, bytes_eq_sound xs ys)

bytes_eq_self : (a : Bytes) → bytes_eq a a ≡ true
unfolding bytes_eq
bytes_eq_self [] = refl
bytes_eq_self (x ∷ xs) = ground (arith, bytes_eq_self xs)

pub bytes_eq_iff : (a b : Bytes) → (bytes_eq a b ≡ true) ↔ (a ≡ b)
bytes_eq_iff a b = (bytes_eq_sound a b, λ e. subst_eq a b e)
  where
    subst_eq : (x y : Bytes) → x ≡ y → bytes_eq x y ≡ true
    subst_eq x y e = rw (← e) (bytes_eq_self x)

-- s[0] == '\0'
abbrev pub is_empty : Bytes → Bool
is_empty [] = true
is_empty (x ∷ xs) = false

-- The string in a buffer: what stands before the first NUL.
unfoldable pub until_nul : Bytes → Bytes
until_nul [] = []
until_nul (x ∷ xs) = let rest = x ∷ until_nul xs in if x == 0 then [] else rest

unfoldable pub to_lower : ℕ → ℕ
to_lower c = if leb b'A' c && leb c b'Z' then c + 32 else c

-- strcasecmp(a, b) == 0, strncasecmp(a, b, n) == 0
unfoldable pub case_eq : Bytes → Bytes → Bool
unfolding bytes_eq to_lower
case_eq a b = bytes_eq (map to_lower a) (map to_lower b)

unfoldable pub case_eq_n : Bytes → Bytes → ℕ → Bool
unfolding case_eq
case_eq_n a b n = case_eq (take n a) (take n b)

abbrev pub cons_before : ℕ → Option (Bytes × Bytes) → Option (Bytes × Bytes)
cons_before x none = none
cons_before x (some (before, after)) = some (x ∷ before, after)

-- strchr(s, c): what stands before the first `c`, and what stands after it
unfoldable pub strchr : Bytes → ℕ → Option (Bytes × Bytes)
strchr [] c = none
strchr (x ∷ xs) c = let rest = strchr xs c in if x == c then some ([], xs) else cons_before x rest

unfoldable pub starts_with : Bytes → Bytes → Bool
starts_with s [] = true
starts_with [] (n ∷ ns) = false
starts_with (x ∷ xs) (n ∷ ns) = x == n && starts_with xs ns

-- strstr(s, needle): the string from the first match on
unfoldable pub strstr : Bytes → Bytes → Option Bytes
unfolding starts_with
strstr [] needle = if is_empty needle then some [] else none
strstr (x ∷ xs) needle =
    let rest = strstr xs needle in if starts_with (x ∷ xs) needle then some (x ∷ xs) else rest

strchr_sound :
    (s : Bytes) (c : ℕ) (before after : Bytes)
    → strchr s c ≡ some (before, after)
    → (s ≡ before ++ c ∷ after) × All (λ x. x ≢ c) before
unfolding strchr
strchr_sound [] c before after h = cc
strchr_sound (x ∷ xs) c before after h = elim (Option-cases (strchr xs c)) [
  | inl e ↦ ground arith
  | inr ((b, a), e) ↦ ground (arith, strchr_sound xs c b a e)
]

pub strchr_complete :
    (before : Bytes) (c : ℕ) (after : Bytes)
    → All (λ x. x ≢ c) before
    → strchr (before ++ c ∷ after) c ≡ some (before, after)
unfolding strchr
strchr_complete [] c after h = ground arith
strchr_complete (x ∷ xs) c after (h, hs) = ground (arith, strchr_complete xs c after hs)

pub is_empty-cases :
    (s : Bytes) → ((is_empty s ≡ true) × (s ≡ [])) ⊎ ((is_empty s ≡ false) × (s ≢ []))
is_empty-cases [] = inl (refl, refl)
is_empty-cases (x ∷ xs) = inr (refl, λ e. cc)

pub strchr-none : (s : Bytes) (c : ℕ) → All (λ x. x ≢ c) s → strchr s c ≡ none
unfolding strchr
strchr-none [] c h = refl
strchr-none (x ∷ xs) c (h, hs) = ground (arith, strchr-none xs c hs)
