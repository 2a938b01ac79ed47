-- ===== src/Mqtt/Payloads/Announce.antt =====
-- The announcements of src/mqtt/ha_mqtt_helpers.c fit the messages and name the topics that the
-- device uses.
use mathlib.Core.List.{append_assoc}
use cedar_switch_3i3o_power.Common.{
  ℕ, ◌≤◌, ◌<◌, ◌≡◌, ◌∙◌, Bool, true, false, [], ◌++◌, arith, length, length-take,
}
use cedar_switch_3i3o_power.Common.CString.{Bytes, codes, parts}
use cedar_switch_3i3o_power.Mqtt.Device.{output_device, Device}
use cedar_switch_3i3o_power.Mqtt.Topics.{
  component_input, component_switch, topic_base, generate_command_topik,
}
use cedar_switch_3i3o_power.Mqtt.Topics.Shape.{
  io_type, status_topic, print_into_all, generate_command_topik_lem,
}
use cedar_switch_3i3o_power.Mqtt.Payloads.{
  component_input_name, dev_class_switch_name, conf_text, numbered_name, command_parts,
  command_part, get_config_payload_string,
}
use cedar_switch_3i3o_power.Mqtt.Payloads.Length.{
  length-numbered_name, length-conf_text, length-command_parts,
}
use cedar_switch_3i3o_power.Mqtt.Payloads.Parts.{
  Contains, Contains-trans, named_topic, state_topic_within, extra_within, command_part_lem,
}

abbrev input_text : Device → ℕ → Bytes
input_text d number =
    conf_text d (codes "power") component_input number (codes "\n")
      (numbered_name component_input_name number)

abbrev relay_text : Device → ℕ → Bytes
relay_text d number =
    conf_text d component_switch component_switch number (command_part d number)
      (numbered_name dev_class_switch_name number)

length-input_text :
    (d : Device) (number : ℕ)
    → length d.identifier ≤ 31
    → length d.conf_ip ≤ 45
    → number < 1000
    → length (input_text d number) < 700
length-input_text d number id ip h =
    length-conf_text d (codes "power") component_input number (codes "\n") _ id ip (omega arith)
      (omega arith) (omega arith)
      (omega (arith, length-numbered_name component_input_name number h)) h

length-relay_text :
    (d : Device) (number : ℕ)
    → length d.identifier ≤ 31
    → length d.conf_ip ≤ 45
    → number < 1000
    → length (relay_text d number) < 700
unfolding command_part
length-relay_text d number id ip h =
    length-conf_text d component_switch component_switch number (command_part d number) _ id ip
      (omega arith) (omega arith)
      (omega (
        arith,
        length-take 127 (parts (command_parts d number)),
        length-command_parts d number id h,
      ))
      (omega (arith, length-numbered_name dev_class_switch_name number h)) h

command_topic_within :
    (d : Device) (number : ℕ)
    → length d.identifier ≤ 31
    → 1 ≤ number
    → number < 1000
    → Contains (relay_text d number) (
        named_topic
          (codes "\"command_topic\" : \"")
          (generate_command_topik d 128 output_device number []).1)
command_topic_within d number id low h =
    let topic = topic_base d component_switch number ++ codes "/set" in
    rw (generate_command_topik_lem d number [] id h) (
      Contains-trans (relay_text d number) (command_part d number)
        (named_topic (codes "\"command_topic\" : \"") topic)
        (extra_within d component_switch component_switch number (command_part d number)
          (numbered_name dev_class_switch_name number))
        (
          [],
          codes ",\n",
          command_part_lem d number id low h
              ∙ append_assoc (codes "\"command_topic\" : \"") (topic ++ codes "\"") (codes ",\n"),
        ))

-- The message that announces an input or a relay is not cut: it fits the array of a message, and it
-- names the topic on which the device reports the state and, for a relay, the topic of the commands
-- that it subscribes to; where the identifier has at most 31 characters and the address 45, and the
-- number is from 1 to 255.
pub announcement_topics :
    (d : Device) (relay : Bool) (number : ℕ)
    → length d.identifier ≤ 31
    → length d.conf_ip ≤ 45
    → 1 ≤ number
    → number < 256
    → (length (get_config_payload_string d 700 (io_type relay) number).1 < 700)
      × Contains
          (get_config_payload_string d 700 (io_type relay) number).1
          (named_topic (codes "\"state_topic\" :\"") (status_topic d relay number))
      × (relay ≡ true
          → Contains (get_config_payload_string d 700 (io_type relay) number).1 (
              named_topic
                (codes "\"command_topic\" : \"")
                (generate_command_topik d 128 output_device number []).1))
unfolding get_config_payload_string
announcement_topics d true number id ip low h =
    let fits = length-relay_text d number id ip (omega arith) in
    rw (print_into_all 700 (relay_text d number) fits) (
      fits,
      state_topic_within d component_switch true number (command_part d number)
          (numbered_name dev_class_switch_name number) id (omega arith),
      λ e. command_topic_within d number id low (omega arith),
    )
announcement_topics d false number id ip low h =
    let fits = length-input_text d number id ip (omega arith) in
    rw (print_into_all 700 (input_text d number) fits) (
      fits,
      state_topic_within d (codes "power") false number (codes "\n")
          (numbered_name component_input_name number) id (omega arith),
      λ e. cc,
    )
