-- ===== src/Mqtt/Packet/Queued.antt =====
-- A packet of the broker that `mqtt_evt_handler` (src/mqtt/ha_mqtt_callback.c) puts whole into the
-- queue MQTT_MSGQ_RX.
use cedar_switch_3i3o_power.Common.{
  ℕ, ◌≤◌, ◌<◌, ◌≡◌, refl, subst, ◌∙◌, ap, inl, inr, Bool, true, false, some, [], ◌∷◌, ◌++◌, ltb,
  arith, All, All-append, All-map, length, take, take_of_length-le, get_elem?, get_elem?-append,
  ◌==◌,
}
use cedar_switch_3i3o_power.Common.CString.{Bytes, codes, until_nul}
use cedar_switch_3i3o_power.Common.Format.{dec}
use cedar_switch_3i3o_power.Common.Format.Decimal.{IsDigit, dec-IsDigit}
use cedar_switch_3i3o_power.Mqtt.Queue.{MqttMsg}
use cedar_switch_3i3o_power.Mqtt.Device.{Device}
use cedar_switch_3i3o_power.Mqtt.Device.Identifier.{IsUpperHex}
use cedar_switch_3i3o_power.Mqtt.Topics.{component_switch, topic_base}
use cedar_switch_3i3o_power.Mqtt.Incoming.RoundTrip.{command_payload}
use cedar_switch_3i3o_power.Mqtt.Events.{
  read_publish, evt_publish, Client, queue_put, mqtt_evt_handler,
}
use cedar_switch_3i3o_power.Mqtt.Events.Full.{rx-on_publish}
use cedar_switch_3i3o_power.Mqtt.Events.Payload.{Reader, read_publish_all}

-- A text without a NUL.
abbrev pub NoNul : Bytes → Type 0
NoNul = All (λ c. 0 < c)

until_nul-NoNul : (s : Bytes) → NoNul s → until_nul s ≡ s
unfolding until_nul
until_nul-NoNul [] h = refl
until_nul-NoNul (c ∷ s) (h, hs) =
    let here : (c == 0) ≡ false = ground arith in rw (here) (ap (λ t. c ∷ t) (until_nul-NoNul s hs))

pub upper_hex_positive : (c : ℕ) → IsUpperHex c → 0 < c
upper_hex_positive c (inl h) = omega arith
upper_hex_positive c (inr h) = omega arith

digit_positive : (c : ℕ) → IsDigit c → 0 < c
digit_positive c h = omega arith

pub command_payload-NoNul : (on : Bool) → NoNul (command_payload on)
command_payload-NoNul true = (omega arith, (omega arith, tt))
command_payload-NoNul false = (omega arith, (omega arith, (omega arith, tt)))

pub command_topic-NoNul :
    (d : Device) (number : ℕ)
    → NoNul d.identifier
    → NoNul (topic_base d component_switch number ++ codes "/set")
unfolding topic_base
command_topic-NoNul d number name =
    let positive : (c : ℕ) → Type 0 = λ c. 0 < c in
    let digits = All-map IsDigit positive digit_positive (dec number) (dec-IsDigit number) in
    let slash_set : NoNul (codes "/set") =
      (omega arith, (omega arith, (omega arith, (omega arith, tt)))) in
    let base : NoNul (topic_base d component_switch number) = (
      omega arith,
      (
        omega arith,
        (
          omega arith,
          (
            omega arith,
            (
              omega arith,
              (
                omega arith,
                All-append positive d.identifier (b'/' ∷ (component_switch ++ dec number)) name (
                  omega arith,
                  (
                    omega arith,
                    (
                      omega arith,
                      (omega arith, (omega arith, (omega arith, (omega arith, digits)))),
                    ),
                  ),
                ),
              ),
            ),
          ),
        ),
      ),
    ) in
    All-append positive (topic_base d component_switch number) (codes "/set") base slash_set

module _ (r : Reader) where
  read_publish_whole :
      (payload : Bytes) (net : r.Net)
      → r.pending net ≡ payload
      → length payload ≤ 699
      → (read_publish r.Net r.read_payload (length payload) net).0 ≡ payload
  read_publish_whole payload net pending small =
      subst (λ s. (read_publish r.Net r.read_payload (length s) net).0 ≡ take 699 s) pending
        (read_publish_all r net).0
      ∙ take_of_length-le 699 payload small

  -- A packet without errors of the library that finds room is the last message of the queue.
  pub queued_last :
      (now qos message_id : ℕ) (got retain : Bool) (topic payload : Bytes)
      (c : Client r.Net r.read_payload)
      → NoNul topic
      → NoNul payload
      → length topic ≤ 127
      → length payload ≤ 699
      → r.pending c.net ≡ payload
      → length c.rx < 16
      → get_elem?
          (mqtt_evt_handler r.Net r.read_payload now got
            (evt_publish topic (length payload) qos retain message_id)
            c).rx
          (length c.rx)
        ≡ some (record { topic = topic; payload = payload; qos = qos; retain = retain })
  unfolding mqtt_evt_handler queue_put
  queued_last now qos message_id got retain topic payload c whole text fits small pending room =
      let open_queue : ltb (length c.rx) 16 ≡ true = ground arith in
      let msg : MqttMsg = record { topic = topic; payload = payload; qos = qos; retain = retain } in
      rw
        (
          rx-on_publish r.Net r.read_payload topic (length payload) qos message_id retain c,
          open_queue,
          read_publish_whole payload c.net pending small,
          take_of_length-le 127 topic fits,
          until_nul-NoNul topic whole,
          until_nul-NoNul payload text,
        )
        (get_elem?-append c.rx msg [])
