-- ===== src/Common/Ints.antt =====
-- C's `int`, as the return code of a call: `negsuc n` is -(n + 1).
use Prim.Native.Nat.{ℕ, zero, suc}
use mathlib.Core.Bool.{Bool, true, false}

pub data ℤ : Type 0 where
  pos : ℕ → ℤ
  negsuc : ℕ → ℤ

-- rc < 0
abbrev pub is_neg : ℤ → Bool
is_neg (pos n) = false
is_neg (negsuc n) = true

-- rc == 0
abbrev pub is_zero : ℤ → Bool
is_zero (pos zero) = true
is_zero (pos (suc n)) = false
is_zero (negsuc n) = false

-- rc > 0
abbrev pub is_pos : ℤ → Bool
is_pos (pos zero) = false
is_pos (pos (suc n)) = true
is_pos (negsuc n) = false

-- The codes of errno.h that the program returns, negated as it returns them.
abbrev pub e_perm : ℤ
e_perm = negsuc 0

abbrev pub e_no_ent : ℤ
e_no_ent = negsuc 1

abbrev pub e_io : ℤ
e_io = negsuc 4

abbrev pub e_no_mem : ℤ
e_no_mem = negsuc 11

abbrev pub e_acces : ℤ
e_acces = negsuc 12

abbrev pub e_exist : ℤ
e_exist = negsuc 16

abbrev pub e_inval : ℤ
e_inval = negsuc 21

abbrev pub e_no_spc : ℤ
e_no_spc = negsuc 27

abbrev pub e_no_data : ℤ
e_no_data = negsuc 60
