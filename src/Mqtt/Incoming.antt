-- ===== src/Mqtt/Incoming.antt =====
-- src/mqtt/ha_mqtt_helpers.c: `parse_incoming_message`, which reads a command.
pub mod Commands
pub mod RoundTrip
use cedar_switch_3i3o_power.Common.{
  ℕ, zero, suc, ◌+◌, ◌%◌, Bool, true, false, not, ◌&&◌, ◌||◌, Option, none, some, List, [], ◌∷◌,
  ◌==◌, leb, if◌then◌else◌, length, ℤ, pos, negsuc, is_zero,
}
use cedar_switch_3i3o_power.Common.CString.{Bytes, codes, bytes_eq, case_eq, is_empty}
use cedar_switch_3i3o_power.Common.Format.{read_digits}
use cedar_switch_3i3o_power.Mqtt.Device.{DevType, input_sensor, output_device}

-- A conversion "%n[…]" of scanf: the longest run of such bytes, at most `width`, and what follows.
unfoldable pub scan_set : ℕ → (ℕ → Bool) → Bytes → Bytes × Bytes
scan_set zero is_member s = ([], s)
scan_set (suc width) is_member [] = ([], [])
scan_set (suc width) is_member (c ∷ cs) =
    let rest = scan_set width is_member cs in
    if is_member c then (c ∷ rest.0, rest.1) else ([], c ∷ cs)

-- Bytes of the format that stand for themselves: what follows them.
unfoldable pub scan_literal : Bytes → Bytes → Option Bytes
scan_literal [] s = some s
scan_literal (l ∷ ls) [] = none
scan_literal (l ∷ ls) (c ∷ cs) = if l == c then scan_literal ls cs else none

abbrev pub is_digit : ℕ → Bool
is_digit c = leb b'0' c && leb c b'9'

abbrev pub is_letter : ℕ → Bool
is_letter c = (leb b'a' c && leb c b'z') || (leb b'A' c && leb c b'Z')

abbrev pub not_slash : ℕ → Bool
not_slash c = not (c == b'/')

abbrev pub ends : Bytes × Bytes → Option Bytes → Option (Bytes × Bytes)
ends found none = none
ends found (some rest) = if is_empty rest then some found else none

-- sscanf(topic, "%*[^/]/%31[a-zA-Z]%7[0-9]/set%n", …), where two conversions succeed and the text
-- ends after the format. A conversion of a set fails on an empty run.
unfoldable pub scan_topic : Bytes → Option (Bytes × Bytes)
scan_topic topic =
    let prefix = scan_set (length topic) not_slash topic in
    if is_empty prefix.0 then none else elim (scan_literal (b'/' ∷ []) prefix.1) [
      | none ↦ none
      | some after ↦
          let devtype = scan_set 31 is_letter after in
          let index = scan_set 7 is_digit devtype.1 in
          if is_empty devtype.0 || is_empty index.0
          then none
          else ends (devtype.0, index.0) (scan_literal (codes "/set") index.1)
    ]

-- What the caller's variables hold.
pub record Command : Type 0 where
  pub dev_type : DevType
  pub sensor_number : ℕ
  pub state_num : ℕ

unfoldable pub get_sensor_type_from_str : Bytes → DevType → ℤ × DevType
get_sensor_type_from_str s old =
    if bytes_eq s (codes "input")
    then (pos 0, input_sensor)
    else if bytes_eq s (codes "switch")
    then (pos 0, output_device)
    else (negsuc 0, old)

unfoldable pub get_sensor_state_from_str : Bytes → ℕ → ℤ × ℕ
get_sensor_state_from_str s old =
    if case_eq s (codes "on") || bytes_eq s (codes "1")
    then (pos 0, 1)
    else if case_eq s (codes "off") || bytes_eq s (codes "0")
    then (pos 0, 0)
    else (negsuc 0, old)

-- From the conversion of the state on. `strtol` reads at most seven digits and nothing else, so that
-- its checks pass; the number is stored in 8 bits.
unfoldable pub parse_state : Bytes → Bytes → Bytes → Command → ℤ × Command
parse_state payload devtype_str index_str old =
    let state_str = (scan_set 7 (λ c. is_letter c || is_digit c) payload).0 in
    let typed = get_sensor_type_from_str devtype_str old.dev_type in
    let state = get_sensor_state_from_str state_str old.state_num in
    let found : Command = record old { dev_type = typed.1 } in
    if is_empty state_str
    then (negsuc 0, old)
    else if not (is_zero typed.0)
    then (negsuc 0, old)
    else if not (is_zero state.0)
    then (negsuc 0, found)
    else (
      pos 0,
      record found { sensor_number = read_digits 10 0 index_str % 256; state_num = state.1 },
    )

unfoldable pub parse_incoming_message : Bytes → Bytes → Command → ℤ × Command
parse_incoming_message payload topic old = elim (scan_topic topic) [
  | none ↦ (negsuc 0, old)
  | some (devtype_str, index_str) ↦ parse_state payload devtype_str index_str old
]
