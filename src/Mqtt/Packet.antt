-- ===== src/Mqtt/Packet.antt =====
-- From a packet of the broker through `mqtt_evt_handler` (src/mqtt/ha_mqtt_callback.c), the queue
-- MQTT_MSGQ_RX and `ha_mqtt_task` (src/mqtt/ha_task.c) to the pins of `io_task` (src/io/io.c).
pub mod Queued
use cedar_switch_3i3o_power.Common.{
  ℕ, zero, suc, ◌+◌, ◌-◌, ◌≤◌, ◌<◌, ◌≡◌, refl, subst, ◌∙◌, sym, ap, ◌≢◌, inl, inr, Bool, true,
  false, Option, none, some, List, [], ◌∷◌, ◌++◌, ltb, arith, Bool-cases, All, All-append, All-map,
  length, take, length-append, take_of_length-le, get_elem?, get_elem?-append, if◌then◌else◌, ◌==◌,
}
use cedar_switch_3i3o_power.Common.CString.{Bytes, codes, until_nul}
use cedar_switch_3i3o_power.Common.Format.{dec}
use cedar_switch_3i3o_power.Common.Format.Decimal.{IsDigit, dec-IsDigit}
use cedar_switch_3i3o_power.Bus.{OutputsMsg, RelaysDefState, chan_read}
use cedar_switch_3i3o_power.Io.Task.{write_relays_once, IoState, Seen, io_round}
use cedar_switch_3i3o_power.Io.Safety.{IsApplied}
use cedar_switch_3i3o_power.Mqtt.Queue.{MqttMsg}
use cedar_switch_3i3o_power.Mqtt.Device.{output_device, Device, hex_bytes}
use cedar_switch_3i3o_power.Mqtt.Device.Identifier.{
  IsUpperHex, length-hex_bytes, hex_bytes-IsUpperHex,
}
use cedar_switch_3i3o_power.Mqtt.Topics.{component_switch, topic_base, generate_command_topik}
use cedar_switch_3i3o_power.Mqtt.Topics.Shape.{
  topic_prefix, topic_base-append, length-topic_base, generate_command_topik_lem,
}
use cedar_switch_3i3o_power.Mqtt.Incoming.Commands.{NoSlash}
use cedar_switch_3i3o_power.Mqtt.Incoming.RoundTrip.{command_payload}
use cedar_switch_3i3o_power.Mqtt.Adapter.{NetIf, ha_mqtt_init, SubTopic, subscribe_loop}
use cedar_switch_3i3o_power.Mqtt.Adapter.Subscription.{
  command_topic, subscribe_three, get_elem?-commands, identifier-init, upper_hex-NoSlash,
}
use cedar_switch_3i3o_power.Mqtt.Events.{
  read_publish, evt_publish, Client, queue_put, on_publish, mqtt_evt_handler,
}
use cedar_switch_3i3o_power.Mqtt.Events.Payload.{Reader, read_publish_all}
use cedar_switch_3i3o_power.Mqtt.Task.{HaState, TaskRound, ha_round}
use cedar_switch_3i3o_power.Mqtt.Task.Bits.{with_relay}
use cedar_switch_3i3o_power.Mqtt.Task.Commands.{IsCommand, command_drives_pins}
use cedar_switch_3i3o_power.Mqtt.Packet.Queued.{
  NoNul, upper_hex_positive, command_payload-NoNul, command_topic-NoNul, queued_last,
}

-- The topic that stands in the subscription for a relay.
subscribed_topic :
    (d : Device) (topics : List SubTopic) (t : SubTopic) (number : ℕ)
    → 1 ≤ number
    → number ≤ 3
    → subscribe_loop d 3 0 ≡ inr topics
    → get_elem? topics (number - 1) ≡ some t
    → t ≡ command_topic d number
subscribed_topic d topics t number low high all this =
    let three = subscribe_three d in
    let named = get_elem?-commands d number low high in
    let same : topics ≡ command_topic d 1 ∷ command_topic d 2 ∷ command_topic d 3 ∷ [] = cc in
    let found : some t ≡ some (command_topic d number) =
      sym this ∙ ap (λ ts. get_elem? ts (number - 1)) same ∙ named in
    cc

module _ (r : Reader) (is_ipv4 is_ipv6 : Bytes → Bool) (null_text : Bytes)
    (shifted_out : ℕ → ℕ) where
  -- A packet ON or OFF on the topic that the client has subscribed to for a relay, which finds room
  -- in the queue, switches that relay, whatever its quality of service and its retain flag: when
  -- the reporting task takes the message in a round that finds the client connected, and publishes
  -- it with no other publication before the relay task's next round, and that round reads both
  -- channels and finds the client connected as well, the relay task sets the relay's pin as the
  -- packet says, and the other two pins to the relays that the reporting task's round began with;
  -- where the hardware has an identifier of 1 to 15 bytes and the library reads the payload without
  -- an error.
  pub packet_drives_pins :
      (id : List ℕ) (iface : Option NetIf) (d : Device) (topics : List SubTopic) (t : SubTopic)
      (number : ℕ) (on : Bool) (now qos message_id : ℕ) (got retain : Bool)
      (c : Client r.Net r.read_payload) (round : TaskRound) (chan : OutputsMsg) (st : HaState)
      (def : RelaysDefState) (seen : Seen) (io : IoState)
      → 0 < length id
      → length id ≤ 15
      → All (λ b. b < 256) id
      → 1 ≤ number
      → number ≤ 3
      → subscribe_loop (ha_mqtt_init is_ipv4 is_ipv6 (inr id) iface d).1 3 0 ≡ inr topics
      → get_elem? topics (number - 1) ≡ some t
      → r.pending c.net ≡ command_payload on
      → length c.rx < 16
      → round.incoming
        ≡ get_elem?
            (mqtt_evt_handler r.Net r.read_payload now got
              (evt_publish t.topic (length (command_payload on)) qos retain message_id)
              c).rx
            (length c.rx)
      → st.outputs.current.state < 256
      → (chan_read round.got_status round.status st.status).connected ≡ true
      → round.got_pub ≡ true
      → ((m : OutputsMsg) → round.others m ≡ m)
      → IsApplied io
      → seen.got_outputs ≡ true
      → seen.got_status ≡ true
      → seen.status.connected ≡ true
      → seen.outputs
        ≡ (ha_round null_text shifted_out
            (ha_mqtt_init is_ipv4 is_ipv6 (inr id) iface d).1
            round
            chan
            st).chan
      → (io_round def seen io).pins
        ≡ with_relay number on (write_relays_once st.outputs.current.state)
  packet_drives_pins id iface d topics t number on now qos message_id got retain c round chan st def
        seen io low fits bytes first last subscribed this pending room taken state connected
        published alone applied gots gott up read =
      let d' = (ha_mqtt_init is_ipv4 is_ipv6 (inr id) iface d).1 in
      let name = identifier-init is_ipv4 is_ipv6 id iface d low fits in
      let hex = hex_bytes-IsUpperHex id bytes in
      let short : length d'.identifier ≤ 31 = rw (name) (omega (arith, length-hex_bytes id)) in
      let plain : NoSlash d'.identifier = rw (name) (upper_hex-NoSlash (hex_bytes id) hex) in
      let whole : NoNul d'.identifier =
        rw (name) (All-map IsUpperHex (λ c. 0 < c) upper_hex_positive (hex_bytes id) hex) in
      let topic : t.topic ≡ topic_base d' component_switch number ++ codes "/set" =
        ap (λ s. s.topic) (subscribed_topic d' topics t number first last subscribed this)
        ∙ generate_command_topik_lem d' number [] short (omega arith) in
      let topic_short : length t.topic ≤ 127 = rw (topic) (
        omega (
          arith,
          length-append (topic_base d' component_switch number) (codes "/set"),
          length-topic_base d' component_switch number (omega arith),
          short,
        )) in
      let topic_whole : NoNul t.topic = rw (topic) (command_topic-NoNul d' number whole) in
      let small : length (command_payload on) ≤ 699 = ground arith in
      let queued =
        queued_last r now qos message_id got retain t.topic (command_payload on) c topic_whole
          (command_payload-NoNul on) topic_short small pending room in
      command_drives_pins null_text shifted_out d' round number on _ chan st def seen io short plain
        first last state connected
        (ap (λ s. s.topic) (subscribed_topic d' topics t number first last subscribed this), refl)
        (taken ∙ queued) published alone applied gots gott up read
