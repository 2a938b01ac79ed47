-- ===== src/Mqtt/Topics.antt =====
-- src/mqtt/ha_mqtt_helpers.c: the topics on which the device publishes, and those it subscribes to.
pub mod Shape
use cedar_switch_3i3o_power.Common.{
  ℕ, ◌-◌, List, [], ◌∷◌, ◌++◌, length, take, ℤ, pos, negsuc, e_inval,
}
use cedar_switch_3i3o_power.Common.CString.{Bytes, codes}
use cedar_switch_3i3o_power.Common.Format.{dec}
use cedar_switch_3i3o_power.Mqtt.Device.{
  DevType, input_sensor, output_device, energy_sensor, power_sensor, voltage_sensor,
  power_factor_sensor, current_sensor, apparent_power_sensor, voltage_diagnostic_batt_sensor,
  voltage_diagnostic_pow_supl_sensor, Device,
}

abbrev pub dev_system : Bytes
dev_system = codes "cedar"

abbrev pub component_input : Bytes
component_input = codes "input"

abbrev pub component_switch : Bytes
component_switch = codes "switch"

-- "%s_%s/%s%u", which the three templates for a state, a command and their announcement begin with
unfoldable pub topic_base : Device → Bytes → ℕ → Bytes
topic_base d component number =
    dev_system ++ (b'_' ∷ (d.identifier ++ (b'/' ∷ (component ++ dec number))))

-- snprintf into `buff` of that size: the text that is left in it
abbrev pub print_into : ℕ → Bytes → Bytes
print_into size text = take (size - 1) text

unfoldable pub get_status_topik_string : Device → ℕ → DevType → ℕ → ℤ × Bytes
get_status_topik_string d size input_sensor number =
    (pos 0, print_into size (topic_base d component_input number ++ codes "/state"))
get_status_topik_string d size output_device number =
    (pos 0, print_into size (topic_base d component_switch number ++ codes "/state"))
get_status_topik_string d size other number = (e_inval, [])

-- "%s/%s/%s_%s/%s%u/config"
abbrev pub config_topic : Device → ℕ → Bytes → Bytes → ℕ → ℤ × Bytes
config_topic d size platform component number = (
  pos 0,
  print_into size (
      codes "homeassistant"
      ++ (b'/' ∷ (platform ++ (b'/' ∷ (topic_base d component number ++ codes "/config"))))),
)

unfoldable pub get_config_topik_string : Device → ℕ → DevType → ℕ → ℤ × Bytes
get_config_topik_string d size input_sensor number =
    config_topic d size (codes "binary_sensor") component_input number
get_config_topik_string d size output_device number =
    config_topic d size component_switch component_switch number
get_config_topik_string d size voltage_diagnostic_batt_sensor number =
    config_topic d size (codes "sensor") (codes "battery") number
get_config_topik_string d size voltage_diagnostic_pow_supl_sensor number =
    config_topic d size (codes "sensor") (codes "power_supply") number
get_config_topik_string d size energy_sensor number =
    config_topic d size (codes "sensor") (codes "energy") number
get_config_topik_string d size voltage_sensor number =
    config_topic d size (codes "sensor") (codes "voltage") number
get_config_topik_string d size power_sensor number =
    config_topic d size (codes "sensor") (codes "power") number
get_config_topik_string d size apparent_power_sensor number =
    config_topic d size (codes "sensor") (codes "apparent_power") number
get_config_topik_string d size power_factor_sensor number =
    config_topic d size (codes "sensor") (codes "power_factor") number
get_config_topik_string d size current_sensor number =
    config_topic d size (codes "sensor") (codes "current") number

-- The result of snprintf is the length that the whole text has. On failure the buffer is left
-- alone.
unfoldable pub generate_command_topik : Device → ℕ → DevType → ℕ → Bytes → ℤ × Bytes
generate_command_topik d size output_device number buff =
    let text = topic_base d component_switch number ++ codes "/set" in
    (pos (length text), print_into size text)
generate_command_topik d size other number buff = (negsuc 0, buff)
