-- ===== src/Common/Format.antt =====
-- The conversions of printf that the program uses.
pub mod Decimal
use Prim.Native.Nat.{ℕ, zero, suc, ◌+◌, ◌-◌, ◌*◌, ◌/◌, ◌%◌, ◌^◌, min}
use mathlib.Core.Bool.{Bool, true, false, ◌&&◌, ◌||◌}
use mathlib.Core.List.{[], ◌∷◌}
use cedar_switch_3i3o_power.Common.Tests.{ltb, leb, ◌==◌, if◌then◌else◌}
use cedar_switch_3i3o_power.Common.Ints.{ℤ, pos, negsuc}
use cedar_switch_3i3o_power.Common.CString.{Bytes, codes}

-- Decimal digits, least significant last; each round of fuel writes one.
unfoldable pub digits_from : ℕ → ℕ → Bytes → Bytes
digits_from zero n out = out
digits_from (suc fuel) n out =
    let here = (b'0' + n % 10) ∷ out in
    let more = digits_from fuel (n / 10) here in if ltb n 10 then here else more

-- "%u": a 32-bit number has ten digits at most.
unfoldable pub dec : ℕ → Bytes
unfolding digits_from
dec n = digits_from 10 n []

-- One lower-case hexadecimal digit, one upper-case.
unfoldable pub hex_digit : ℕ → ℕ
hex_digit d = if ltb d 10 then b'0' + d else b'a' + d - 10

unfoldable pub upper_hex_digit : ℕ → ℕ
upper_hex_digit d = if ltb d 10 then b'0' + d else b'A' + d - 10

-- "%02x" and "%02X" of a byte
unfoldable pub hex2 : ℕ → Bytes
unfolding hex_digit
hex2 b = hex_digit (b / 16) ∷ hex_digit (b % 16) ∷ []

unfoldable pub upper_hex2 : ℕ → Bytes
unfolding upper_hex_digit
upper_hex2 b = upper_hex_digit (b / 16) ∷ upper_hex_digit (b % 16) ∷ []

abbrev pub bool_text : Bool → Bytes
bool_text true = codes "true"
bool_text false = codes "false"

-- "%d"
unfoldable pub dec_int : ℤ → Bytes
unfolding dec
dec_int (pos n) = dec n
dec_int (negsuc n) = b'-' ∷ dec (n + 1)

abbrev is_space : ℕ → Bool
is_space c = c == b' ' || (leb 9 c && leb c 13)

-- isspace(3), as strtol(3) skips it
unfoldable pub skip_space : Bytes → Bytes
skip_space [] = []
skip_space (c ∷ cs) = let rest = skip_space cs in if is_space c then rest else c ∷ cs

-- The value of a digit in any base up to 36; 36 if it is none.
unfoldable pub digit_value : ℕ → ℕ
digit_value c =
    if leb b'0' c && leb c b'9'
    then c - b'0'
    else if leb b'a' c && leb c b'z'
    then c - b'a' + 10
    else if leb b'A' c && leb c b'Z'
    then c - b'A' + 10
    else 36

unfoldable pub read_digits : ℕ → ℕ → Bytes → ℕ
unfolding digit_value
read_digits base acc [] = acc
read_digits base acc (c ∷ cs) =
    let more = read_digits base (acc * base + digit_value c) cs in
    if ltb (digit_value c) base then more else acc

-- The digits of a number in the base that its prefix names, as strtol(3) reads it with base 0.
unfoldable pub read_prefixed : Bytes → ℕ
unfolding read_digits
read_prefixed [] = 0
read_prefixed (c ∷ []) = read_digits 10 0 (c ∷ [])
read_prefixed (c ∷ d ∷ []) = read_digits (if c == b'0' then 8 else 10) 0 (c ∷ d ∷ [])
read_prefixed (c ∷ d ∷ e ∷ rest) =
    if c == b'0' && ((d == b'x' || d == b'X') && ltb (digit_value e) 16)
    then read_digits 16 0 (e ∷ rest)
    else read_digits (if c == b'0' then 8 else 10) 0 (c ∷ d ∷ e ∷ rest)

-- A `long` has 32 bits; strtol(3) returns the nearest value.
abbrev clamp_pos : ℕ → ℤ
clamp_pos n = pos (min n (2 ^ 31 - 1))

abbrev clamp_neg : ℕ → ℤ
clamp_neg n = if n == 0 then pos 0 else negsuc (min n (2 ^ 31) - 1)

unfoldable pub read_signed : Bytes → ℤ
unfolding read_prefixed
read_signed [] = pos 0
read_signed (c ∷ cs) =
    if c == b'-'
    then clamp_neg (read_prefixed cs)
    else if c == b'+'
    then clamp_pos (read_prefixed cs)
    else clamp_pos (read_prefixed (c ∷ cs))

-- strtol(s, NULL, 0)
unfoldable pub strtol : Bytes → ℤ
unfolding read_signed skip_space
strtol s = read_signed (skip_space s)
