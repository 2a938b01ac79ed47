-- ===== src/Mqtt/Adapter/Subscription.antt =====
-- The topics that `ha_mqtt_subscribe_topiks` (src/mqtt/ha_mqtt_adapter.c) subscribes to, for the
-- identifier that `ha_mqtt_init` sets.
use cedar_switch_3i3o_power.Common.{
  ℕ, zero, suc, ◌≤◌, ◌<◌, ◌≡◌, refl, inl, inr, Bool, Option, some, List, [], ◌∷◌, arith, All,
  length, get_elem?, ◌-◌, pos,
}
use cedar_switch_3i3o_power.Common.CString.{Bytes}
use cedar_switch_3i3o_power.Mqtt.Device.{
  output_device, Device, set_device_conf_ip, hex_bytes, inet6_addrstrlen,
}
use cedar_switch_3i3o_power.Mqtt.Device.Identifier.{
  IsUpperHex, length-hex_bytes, hex_bytes-IsUpperHex, set_device_id_accepts,
}
use cedar_switch_3i3o_power.Mqtt.Topics.{generate_command_topik}
use cedar_switch_3i3o_power.Mqtt.Incoming.{Command, parse_incoming_message}
use cedar_switch_3i3o_power.Mqtt.Incoming.Commands.{NoSlash}
use cedar_switch_3i3o_power.Mqtt.Incoming.RoundTrip.{
  command_payload, command_state, command_round_trip,
}
use cedar_switch_3i3o_power.Mqtt.Adapter.{
  NetIf, get_default_iface_ip_str, ha_mqtt_set_unic_id, ha_mqtt_set_dev_ip, ha_mqtt_init, SubTopic,
  subscribe_loop,
}

pub upper_hex-NoSlash : (s : Bytes) → All IsUpperHex s → NoSlash s
upper_hex-NoSlash [] h = tt
upper_hex-NoSlash (c ∷ s) (inl h, hs) = (omega arith, upper_hex-NoSlash s hs)
upper_hex-NoSlash (c ∷ s) (inr h, hs) = (omega arith, upper_hex-NoSlash s hs)

identifier-set_unic_id :
    (id : List ℕ) (d : Device)
    → 0 < length id
    → length id ≤ 15
    → (ha_mqtt_set_unic_id (inr id) d).1.identifier ≡ hex_bytes id
unfolding ha_mqtt_set_unic_id
identifier-set_unic_id id d low h = ground (arith, set_device_id_accepts id d)

identifier-set_device_conf_ip :
    (is_ipv4 is_ipv6 : Bytes → Bool) (text : Bytes) (d : Device)
    → (set_device_conf_ip is_ipv4 is_ipv6 (some text) d).1.identifier ≡ d.identifier
unfolding set_device_conf_ip
identifier-set_device_conf_ip is_ipv4 is_ipv6 text d = ground arith

abbrev pub command_topic : Device → ℕ → SubTopic
command_topic d number = record {
  topic = (generate_command_topik d 128 output_device number []).1;
  qos = 2;
}

pub subscribe_three :
    (d : Device)
    → subscribe_loop d 3 0 ≡ inr (command_topic d 1 ∷ command_topic d 2 ∷ command_topic d 3 ∷ [])
unfolding subscribe_loop generate_command_topik
subscribe_three d = refl

pub get_elem?-commands :
    (d : Device) (number : ℕ)
    → 1 ≤ number
    → number ≤ 3
    → get_elem? (command_topic d 1 ∷ command_topic d 2 ∷ command_topic d 3 ∷ []) (number - 1)
      ≡ some (command_topic d number)
get_elem?-commands d zero l h = absurd (omega arith)
get_elem?-commands d (suc zero) l h = refl
get_elem?-commands d (suc (suc zero)) l h = refl
get_elem?-commands d (suc (suc (suc zero))) l h = refl
get_elem?-commands d (suc (suc (suc (suc n)))) l h = absurd (omega arith)

module _ (is_ipv4 is_ipv6 : Bytes → Bool) where
  identifier-set_dev_ip :
      (iface : Option NetIf) (d : Device)
      → (ha_mqtt_set_dev_ip is_ipv4 is_ipv6 iface d).1.identifier ≡ d.identifier
  unfolding ha_mqtt_set_dev_ip
  identifier-set_dev_ip iface d = ground (
    arith,
    identifier-set_device_conf_ip is_ipv4 is_ipv6
        (get_default_iface_ip_str iface inet6_addrstrlen []).1 d,
  )

  pub identifier-init :
      (id : List ℕ) (iface : Option NetIf) (d : Device)
      → 0 < length id
      → length id ≤ 15
      → (ha_mqtt_init is_ipv4 is_ipv6 (inr id) iface d).1.identifier ≡ hex_bytes id
  unfolding ha_mqtt_init ha_mqtt_set_unic_id
  identifier-init id iface d low h =
      let named = (ha_mqtt_set_unic_id (inr id) d).1 in
      ground (arith, identifier-set_unic_id id d low h, identifier-set_dev_ip iface named)

  -- Where the hardware has an identifier of 1 to 15 bytes, and whatever becomes of the address, the
  -- subscription after the initialisation has a topic for each of the three relays, and a message ON
  -- or OFF on that topic is parsed as a command for that relay and that state.
  pub subscription_commands :
      (id : List ℕ) (iface : Option NetIf) (d : Device) (number : ℕ) (on : Bool) (old : Command)
      → 0 < length id
      → length id ≤ 15
      → All (λ b. b < 256) id
      → 1 ≤ number
      → number ≤ 3
      → (topics : List SubTopic) × (t : SubTopic) × (subscribe_loop
            (ha_mqtt_init is_ipv4 is_ipv6 (inr id) iface d).1
            3
            0
          ≡ inr topics)
        × (get_elem? topics (number - 1) ≡ some t)
        × (parse_incoming_message (command_payload on) t.topic old ≡ (
          pos 0,
          record { dev_type = output_device; sensor_number = number; state_num = command_state on },
        ))
  subscription_commands id iface d number on old low h bytes l k =
      let d' = (ha_mqtt_init is_ipv4 is_ipv6 (inr id) iface d).1 in
      let name = identifier-init id iface d low h in
      let short : length d'.identifier ≤ 31 = rw (name) (omega (arith, length-hex_bytes id)) in
      let plain : NoSlash d'.identifier =
        rw (name) (upper_hex-NoSlash (hex_bytes id) (hex_bytes-IsUpperHex id bytes)) in
      (
        command_topic d' 1 ∷ command_topic d' 2 ∷ command_topic d' 3 ∷ [],
        command_topic d' number,
        subscribe_three d',
        get_elem?-commands d' number l k,
        command_round_trip d' number on [] old short plain (omega arith),
      )
