-- ===== src/Mqtt/Payloads.antt =====
-- src/mqtt/ha_mqtt_helpers.c: the message that announces a device to Home Assistant, and the one
-- that reports its state.
pub mod Length
pub mod Announce
pub mod Parts
use cedar_switch_3i3o_power.Common.{
  ℕ, ◌%◌, ◌-◌, Bool, true, false, List, [], ◌∷◌, ◌++◌, ◌==◌, if◌then◌else◌, length, take, ℤ, pos,
  negsuc,
}
use cedar_switch_3i3o_power.Common.CString.{Bytes, codes, parts}
use cedar_switch_3i3o_power.Common.Format.{dec}
use cedar_switch_3i3o_power.Mqtt.Device.{DevType, input_sensor, output_device, Device}
use cedar_switch_3i3o_power.Mqtt.Topics.{
  dev_system, component_input, component_switch, topic_base, print_into,
}

abbrev pub mqtt_topic_max : ℕ
mqtt_topic_max = 128

-- The UTF-8 texts of component_input_name and dev_class_switch_name.
abbrev pub component_input_name : Bytes
component_input_name = 0xD0 ∷ 0x92 ∷ 0xD1 ∷ 0x85 ∷ 0xD1 ∷ 0x96 ∷ 0xD0 ∷ 0xB4 ∷ []

abbrev pub dev_class_switch_name : Bytes
dev_class_switch_name =
    0xD0 ∷ 0x9F ∷ 0xD0 ∷ 0xB5 ∷ 0xD1 ∷ 0x80 ∷ 0xD0 ∷ 0xB5 ∷ 0xD0 ∷ 0xBC ∷ 0xD0 ∷ 0xB8 ∷ 0xD0 ∷ 0xBA
    ∷ 0xD0 ∷ 0xB0 ∷ 0xD1 ∷ 0x87 ∷ []

-- ha_universal_conf_template, from the device class to the closing brackets
abbrev pub conf_parts : Device → Bytes → Bytes → ℕ → Bytes → Bytes → List Bytes
conf_parts d device_class component number extra name =
    codes "{\n\t\"device_class\" :\""
    ∷ device_class
    ∷ codes "\",\n\t\"expire_after\" : "
    ∷ dec 600
    ∷ codes " ,\n\t"
    ∷ codes "\"state_topic\" :\""
    ∷ topic_base d component number
    ∷ codes "/state"
    ∷ codes "\""
    ∷ codes ",\n\t\"value_template\":\"{{ value_json."
    ∷ component
    ∷ dec number
    ∷ codes " }}\",\n\t"
    ∷ extra
    ∷ codes "\t\"name\":\""
    ∷ name
    ∷ codes "\",\n\t\"unique_id\":\""
    ∷ dev_system
    ∷ codes "_"
    ∷ d.identifier
    ∷ codes "_"
    ∷ component
    ∷ dec number
    ∷ codes "\",\n\t\"unit_of_measurement\": \"\",\n\t\"device\":{\n\t\t\"identifiers\":[\""
    ∷ dev_system
    ∷ codes "_"
    ∷ d.identifier
    ∷ codes "\"],\n\t\t\"name\":\"CedarSwitch\",\n\t\t\"model\":\"CedarSwitch-3R3I-POWER\",\n"
    ∷ codes "\t\t\"manufacturer\":\"Manufacturer\",\n\t\t\"hw_version\" : \"1.0\",\n"
    ∷ codes "\t\t\"sw_version\" : \"1.0\",\n\t\t\"configuration_url\" : \"http://"
    ∷ d.conf_ip
    ∷ codes "\"\n\t}\n}\n"
    ∷ []

unfoldable pub conf_text : Device → Bytes → Bytes → ℕ → Bytes → Bytes → Bytes
conf_text d device_class component number extra name =
    parts (conf_parts d device_class component number extra name)

-- A name, with the number behind it unless that is 0.
abbrev pub numbered_name : Bytes → ℕ → Bytes
numbered_name name number =
    print_into mqtt_topic_max (if number == 0 then name else name ++ (b' ' ∷ dec number))

-- ha_universal_template_command_topik_part
abbrev pub command_parts : Device → ℕ → List Bytes
command_parts d number =
    codes "\"command_topic\" : \""
    ∷ dev_system
    ∷ codes "_"
    ∷ d.identifier
    ∷ codes "/"
    ∷ component_switch
    ∷ (if number == 0 then [] else take 4 (dec number))
    ∷ codes "/set"
    ∷ codes "\""
    ∷ codes ",\n"
    ∷ []

unfoldable pub command_part : Device → ℕ → Bytes
command_part d number = print_into mqtt_topic_max (parts (command_parts d number))

-- The variable `len` that the length passes through has 8 bits.
abbrev pub printed : ℕ → Bytes → ℤ × Bytes
printed size text = (pos (length text % 256), print_into size text)

unfoldable pub get_config_payload_string : Device → ℕ → DevType → ℕ → ℤ × Bytes
get_config_payload_string d size input_sensor number = printed size (
    conf_text d (codes "power") component_input number (codes "\n")
      (numbered_name component_input_name number))
get_config_payload_string d size output_device number = printed size (
    conf_text d component_switch component_switch number (command_part d number)
      (numbered_name dev_class_switch_name number))
get_config_payload_string d size other number = (negsuc 0, [])

abbrev pub on_off : ℕ → Bytes
on_off state = if state == 0 then codes "OFF" else codes "ON"

-- ha_io_template; `null_text` is what "%s" prints for a NULL pointer, which the name is for a type
-- that is neither of the two.
unfoldable pub sensor_text : Bytes → ℕ → ℕ → Bytes
sensor_text name number state =
    codes "{\"" ++ (name ++ (dec number ++ (codes "\" : \"" ++ (on_off state ++ codes "\"}"))))

abbrev pub sensor_name : Bytes → DevType → Bytes
sensor_name null_text input_sensor = component_input
sensor_name null_text output_device = component_switch
sensor_name null_text other = null_text

unfoldable pub generate_sensor_status_payload : Bytes → ℕ → DevType → ℕ → ℕ → ℤ × Bytes
generate_sensor_status_payload null_text size dev_type number state =
    let text = sensor_text (sensor_name null_text dev_type) number state in
    (pos (length text), print_into size text)
