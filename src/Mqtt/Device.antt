-- ===== src/Mqtt/Device.antt =====
-- src/mqtt/ha_mqtt_helpers.h and src/mqtt/ha_mqtt_helpers.c: the device types, and the two static
-- strings of the file, the device's identifier and its address.
pub mod Identifier
use cedar_switch_3i3o_power.Common.{
  ℕ, ◌+◌, ◌*◌, ◌-◌, Bool, true, false, ◌||◌, Option, none, some, List, [], ◌∷◌, ◌++◌, ◌==◌, ltb,
  leb, if◌then◌else◌, length, take, ℤ, pos, e_inval, e_no_spc,
}
use cedar_switch_3i3o_power.Common.CString.{Bytes, is_empty}
use cedar_switch_3i3o_power.Common.Format.{upper_hex2}

-- mqtt_ha_dev_type_t
pub data DevType : Type 0 where
  input_sensor output_device energy_sensor power_sensor voltage_sensor power_factor_sensor
        current_sensor apparent_power_sensor voltage_diagnostic_batt_sensor
        voltage_diagnostic_pow_supl_sensor :
      DevType

-- ha_mqtt_dev_identifier and dev_conf_ip
pub record Device : Type 0 where
  pub identifier : Bytes
  pub conf_ip : Bytes

abbrev pub mqtt_unic_identifier_length : ℕ
mqtt_unic_identifier_length = 32

-- The loop of `set_device_id`: two digits for each byte.
unfoldable pub hex_bytes : List ℕ → Bytes
unfolding upper_hex2
hex_bytes [] = []
hex_bytes (b ∷ bytes) = upper_hex2 b ++ hex_bytes bytes

-- `none` is a NULL pointer.
unfoldable pub set_device_id : Option (List ℕ) → Device → ℤ × Device
set_device_id none d = (e_inval, d)
set_device_id (some id) d =
    if length id == 0
    then (e_inval, d)
    else if ltb mqtt_unic_identifier_length (length id * 2 + 1)
    then (e_no_spc, d)
    else (pos 0, record d { identifier = hex_bytes id })

abbrev pub or_null : Bytes → Option Bytes
or_null s = if is_empty s then none else some s

unfoldable pub get_device_id : Device → Option Bytes
get_device_id d = or_null d.identifier

unfoldable pub get_device_conf_ip : Device → Option Bytes
get_device_conf_ip d = or_null d.conf_ip

-- INET6_ADDRSTRLEN
abbrev pub inet6_addrstrlen : ℕ
inet6_addrstrlen = 46

-- `is_ipv4` and `is_ipv6` are `inet_pton` for the two families.
unfoldable pub set_device_conf_ip :
    (Bytes → Bool) → (Bytes → Bool) → Option Bytes → Device → ℤ × Device
set_device_conf_ip is_ipv4 is_ipv6 none d = (e_inval, d)
set_device_conf_ip is_ipv4 is_ipv6 (some ip_str) d =
    let d' : Device = record d { conf_ip = take (inet6_addrstrlen - 1) ip_str } in
    if is_ipv4 ip_str || is_ipv6 ip_str
    then (if leb inet6_addrstrlen (length ip_str) then (e_no_spc, d') else (pos 0, d'))
    else (e_inval, d)
