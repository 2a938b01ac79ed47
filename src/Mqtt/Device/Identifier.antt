-- ===== src/Mqtt/Device/Identifier.antt =====
-- The identifier that `set_device_id` of src/mqtt/ha_mqtt_helpers.c prints.
use cedar_switch_3i3o_power.Common.{
  ℕ, ◌*◌, ◌/◌, ◌%◌, ◌≤◌, ◌<◌, ◌≡◌, refl, ◌⊎◌, some, List, [], ◌∷◌, arith, All, length, pos, e_inval,
  e_no_spc,
}
use cedar_switch_3i3o_power.Common.Format.{upper_hex2, upper_hex_digit}
use cedar_switch_3i3o_power.Mqtt.Device.{Device, hex_bytes, set_device_id}

-- A character that "%02X" prints.
abbrev pub IsUpperHex : ℕ → Type 0
IsUpperHex c = ((b'0' ≤ c) × (c ≤ b'9')) ⊎ ((b'A' ≤ c) × (c ≤ b'F'))

upper_hex_digit-IsUpperHex : (n : ℕ) → n < 16 → IsUpperHex (upper_hex_digit n)
unfolding upper_hex_digit
upper_hex_digit-IsUpperHex n h = ground arith

upper_hex_digit_injective :
    (m n : ℕ) → m < 16 → n < 16 → upper_hex_digit m ≡ upper_hex_digit n → m ≡ n
unfolding upper_hex_digit
upper_hex_digit_injective m n hm hn e = ground arith

pub length-hex_bytes : (id : List ℕ) → length (hex_bytes id) ≡ length id * 2
unfolding hex_bytes upper_hex2
length-hex_bytes [] = refl
length-hex_bytes (b ∷ id) = omega (arith, length-hex_bytes id)

pub hex_bytes-IsUpperHex : (id : List ℕ) → All (λ b. b < 256) id → All IsUpperHex (hex_bytes id)
unfolding hex_bytes upper_hex2
hex_bytes-IsUpperHex [] h = tt
hex_bytes-IsUpperHex (b ∷ id) (h, hs) = (
  upper_hex_digit-IsUpperHex (b / 16) (omega arith),
  (upper_hex_digit-IsUpperHex (b % 16) (omega arith), hex_bytes-IsUpperHex id hs),
)

byte_of_digits : (a b : ℕ) → a / 16 ≡ b / 16 → a % 16 ≡ b % 16 → a ≡ b
byte_of_digits a b h l = omega arith

hex_bytes_injective :
    (a b : List ℕ) → All (λ x. x < 256) a → All (λ x. x < 256) b → hex_bytes a ≡ hex_bytes b → a ≡ b
unfolding hex_bytes upper_hex2
hex_bytes_injective [] [] ha hb e = refl
hex_bytes_injective [] (y ∷ b) ha hb e = cc
hex_bytes_injective (x ∷ a) [] ha hb e = cc
hex_bytes_injective (x ∷ a) (y ∷ b) (hx, ha) (hy, hb) e =
    let high : upper_hex_digit (x / 16) ≡ upper_hex_digit (y / 16) = cc in
    let low : upper_hex_digit (x % 16) ≡ upper_hex_digit (y % 16) = cc in
    let rest : hex_bytes a ≡ hex_bytes b = cc in
    let same : x ≡ y =
      byte_of_digits x y
        (upper_hex_digit_injective (x / 16) (y / 16) (omega arith) (omega arith) high)
        (upper_hex_digit_injective (x % 16) (y % 16) (omega arith) (omega arith) low) in
    rw (same, hex_bytes_injective a b ha hb rest) refl

-- An identifier is stored exactly for 1 to 15 bytes.
pub set_device_id_accepts :
    (id : List ℕ) (d : Device)
    → ((set_device_id (some id) d
          ≡ (pos 0, record { identifier = hex_bytes id; conf_ip = d.conf_ip }))
        × (0 < length id)
        × (length id ≤ 15))
      ⊎ ((set_device_id (some id) d ≡ (e_inval, d)) × (length id ≡ 0))
      ⊎ ((set_device_id (some id) d ≡ (e_no_spc, d)) × (15 < length id))
unfolding set_device_id
set_device_id_accepts id d = ground arith

-- Devices whose identifiers were both stored and came out the same have the same hardware identifier.
set_device_id_distinct :
    (a b : List ℕ) (d e : Device)
    → All (λ x. x < 256) a
    → All (λ x. x < 256) b
    → (set_device_id (some a) d).0 ≡ pos 0
    → (set_device_id (some b) e).0 ≡ pos 0
    → (set_device_id (some a) d).1.identifier ≡ (set_device_id (some b) e).1.identifier
    → a ≡ b
unfolding set_device_id
set_device_id_distinct a b d e ha hb oka okb same =
    let names : hex_bytes a ≡ hex_bytes b = ground arith in hex_bytes_injective a b ha hb names
