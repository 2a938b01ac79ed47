-- ===== src/Mqtt/Incoming/RoundTrip.antt =====
-- A command that is published on a topic the device subscribes to is understood as the relay and
-- the state that it names (src/mqtt/ha_mqtt_helpers.c).
use cedar_switch_3i3o_power.Common.{
  ℕ, ◌%◌, ◌≤◌, ◌<◌, ◌≡◌, refl, ◌∙◌, ap, Bool, true, false, some, ◌++◌, arith, length, pos,
  if◌then◌else◌,
}
use cedar_switch_3i3o_power.Common.CString.{Bytes, codes, bytes_eq, case_eq}
use cedar_switch_3i3o_power.Common.Format.{dec, read_digits}
use cedar_switch_3i3o_power.Common.Format.Decimal.{dec-IsDigit, length-dec, read_digits-dec, dec-≢}
use cedar_switch_3i3o_power.Mqtt.Device.{output_device, Device}
use cedar_switch_3i3o_power.Mqtt.Topics.{component_switch, topic_base, generate_command_topik}
use cedar_switch_3i3o_power.Mqtt.Topics.Shape.{
  topic_prefix, topic_base-append, generate_command_topik_lem,
}
use cedar_switch_3i3o_power.Mqtt.Incoming.{
  scan_set, scan_topic, Command, get_sensor_type_from_str, get_sensor_state_from_str, parse_state,
  parse_incoming_message,
}
use cedar_switch_3i3o_power.Mqtt.Incoming.Commands.{NoSlash, scan_topic_complete}

topic_prefix-NoSlash : (d : Device) → NoSlash d.identifier → NoSlash (topic_prefix d)
topic_prefix-NoSlash d h =
    (omega arith, (omega arith, (omega arith, (omega arith, (omega arith, (omega arith, h))))))

scan_topic-command :
    (d : Device) (number : ℕ)
    → NoSlash d.identifier
    → number < 1000
    → scan_topic (topic_base d component_switch number ++ codes "/set")
      ≡ some (component_switch, dec number)
scan_topic-command d number id h =
    ap (scan_topic) (topic_base-append d component_switch number (codes "/set"))
    ∙ scan_topic_complete (topic_prefix d) component_switch (dec number) (λ e. cc)
        (topic_prefix-NoSlash d id) (λ e. cc) (refl, (refl, (refl, (refl, (refl, (refl, tt))))))
        (omega arith) (dec-≢ number) (dec-IsDigit number) (omega (arith, length-dec number h))

-- The payloads that Home Assistant sends to a switch.
abbrev pub command_payload : Bool → Bytes
command_payload on = if on then codes "ON" else codes "OFF"

abbrev pub command_state : Bool → ℕ
command_state on = if on then 1 else 0

parse_state-switch :
    (on : Bool) (index : Bytes) (old : Command)
    → parse_state (command_payload on) component_switch index old ≡ (
      pos 0,
      record {
        dev_type = output_device;
        sensor_number = read_digits 10 0 index % 256;
        state_num = command_state on;
      },
    )
unfolding parse_state get_sensor_type_from_str get_sensor_state_from_str scan_set bytes_eq case_eq
parse_state-switch true index old = refl
parse_state-switch false index old = refl

-- A message ON or OFF on the command topic that the device writes for relay `number` is parsed as a
-- command for that relay and that state, where the identifier has at most 31 characters and no
-- slash and the number fits 8 bits.
pub command_round_trip :
    (d : Device) (number : ℕ) (on : Bool) (buff : Bytes) (old : Command)
    → length d.identifier ≤ 31
    → NoSlash d.identifier
    → number < 256
    → parse_incoming_message
        (command_payload on)
        (generate_command_topik d 128 output_device number buff).1
        old
      ≡ (
        pos 0,
        record { dev_type = output_device; sensor_number = number; state_num = command_state on },
      )
unfolding parse_incoming_message
command_round_trip d number on buff old fits id h =
    let read : read_digits 10 0 (dec number) % 256 ≡ number =
      omega (arith, read_digits-dec number (omega arith)) in
    rw
      (
        generate_command_topik_lem d number buff fits (omega arith),
        parse_incoming_message,
        scan_topic-command d number id (omega arith),
        parse_state-switch on (dec number) old,
        read,
      )
      refl
