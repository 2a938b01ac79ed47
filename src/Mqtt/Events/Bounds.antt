-- ===== src/Mqtt/Events/Bounds.antt =====
-- The arrays that `mqtt_evt_handler` of src/mqtt/ha_mqtt_callback.c writes.
use cedar_switch_3i3o_power.Common.{
  ℕ, zero, suc, ◌-◌, ◌≤◌, ◌<◌, ◌≡◌, inl, inr, Bool, ◌&&◌, List, [], ◌∷◌, ◌++◌, ◌==◌, ltb, arith,
  Bool-cases, All, All-append, length, take, drop, length-append, length-take, pos, negsuc,
}
use cedar_switch_3i3o_power.Common.CString.{Bytes, until_nul}
use cedar_switch_3i3o_power.Mqtt.Queue.{MqttMsg}
use cedar_switch_3i3o_power.Mqtt.Events.{
  Got, bytes, payload_size, queue_size, read_loop, read_publish, Evt, evt_connack, evt_disconnect,
  evt_puback, evt_publish, evt_pubrec, evt_pubrel, evt_pubcomp, evt_pingresp, Client, set_connected,
  queue_put, on_publish, on_pubrec, on_pubrel, mqtt_evt_handler, Call, handle_calls,
}
use cedar_switch_3i3o_power.Mqtt.Events.Payload.{Got-cases}

length-until_nul : (s : Bytes) → length (until_nul s) ≤ length s
unfolding until_nul
length-until_nul [] = omega arith
length-until_nul (x ∷ s) = ground (arith, length-until_nul s)

module _ (Net : Type 0) (read_payload : ℕ → Net → Got × Net) where
  -- A message fits the arrays of mqtt_msg_t.
  abbrev pub IsSmall : MqttMsg → Type 0
  IsSmall msg = (length msg.topic ≤ 127) × (length msg.payload ≤ 699)

  -- A call of the library gives no more bytes than it was asked for.
  abbrev pub IsHonest : Type 0
  IsHonest = (n : ℕ) (net : Net) (cs : Bytes) → (read_payload n net).0 ≡ bytes cs → length cs ≤ n

  abbrev pub IsInBounds : List MqttMsg → Type 0
  IsInBounds rx = (length rx ≤ queue_size) × All IsSmall rx

  length-read_loop :
      (fuel to_read : ℕ) (got : Bytes) (net : Net)
      → IsHonest
      → length got ≤ 699
      → length (read_loop Net read_payload fuel to_read got net).0 ≤ 699
  unfolding read_loop
  length-read_loop zero to_read got net honest h = h
  length-read_loop (suc fuel) to_read got net honest h =
      elim (Bool-cases (ltb (length got) to_read && ltb (length got) 699)) [
        | inr done ↦ rw (done) h
        | inl more ↦ elim (Got-cases (read_payload (699 - length got) net).0) [
          | inl none ↦ rw (more, none) h
          | inr (inl nothing) ↦ rw (more, nothing) h
          | inr (inr (c, cs, some)) ↦
              let short = honest (699 - length got) net (c ∷ cs) some in
              let grown = length-append got (c ∷ cs) in
              rw (more, some) (length-read_loop fuel to_read (got ++ c ∷ cs) _ honest (omega arith))
        ]
      ]

  length-read_publish :
      (to_read : ℕ) (net : Net)
      → IsHonest
      → length (read_publish Net read_payload to_read net).0 ≤ 699
  unfolding read_publish
  length-read_publish to_read net honest =
      ground (arith, length-read_loop payload_size to_read [] net honest)

  queue_put-IsInBounds :
      (msg : MqttMsg) (rx : List MqttMsg)
      → IsSmall msg
      → IsInBounds rx
      → IsInBounds (queue_put Net read_payload msg rx)
  unfolding queue_put
  queue_put-IsInBounds msg rx small (count, all) = elim (Bool-cases (ltb (length rx) 16)) [
    | inl room ↦
        let fits : length rx < 16 = ground arith in
        rw (room) (
          omega (arith, length-append rx (msg ∷ [])),
          All-append IsSmall rx (msg ∷ []) all (small, tt),
        )
    | inr full ↦ rw (full) (count, all)
  ]

  drop-IsInBounds : (n : ℕ) (rx : List MqttMsg) → IsInBounds rx → IsInBounds (drop n rx)
  drop-IsInBounds zero rx h = h
  drop-IsInBounds (suc n) [] h = h
  drop-IsInBounds (suc n) (m ∷ rx) (count, all) = drop-IsInBounds n rx (omega arith, all.1)

  handler-IsInBounds :
      (now : ℕ) (got : Bool) (evt : Evt) (c : Client Net read_payload)
      → IsHonest
      → IsInBounds c.rx
      → IsInBounds (mqtt_evt_handler Net read_payload now got evt c).rx
  unfolding mqtt_evt_handler set_connected on_publish on_pubrec on_pubrel
  handler-IsInBounds now got (evt_connack (pos zero)) c honest h = h
  handler-IsInBounds now got (evt_connack (pos (suc n))) c honest h = h
  handler-IsInBounds now got (evt_connack (negsuc n)) c honest h = h
  handler-IsInBounds now got evt_disconnect c honest h = h
  handler-IsInBounds now got (evt_puback result message_id) c honest h = h
  handler-IsInBounds now got (evt_publish topic to_read qos retain message_id) c honest h =
      let read = read_publish Net read_payload to_read c.net in
      let msg : MqttMsg = record {
        topic = until_nul (take 127 topic);
        payload = until_nul read.0;
        qos = qos;
        retain = retain;
      } in
      let short : length msg.topic ≤ 127 =
        omega (arith, length-until_nul (take 127 topic), length-take 127 topic) in
      let small : length msg.payload ≤ 699 =
        omega (arith, length-until_nul read.0, length-read_publish to_read c.net honest) in
      let put = queue_put-IsInBounds msg c.rx (short, small) h in
      elim (Bool-cases (qos == 1)) [
        | inl one ↦ rw (one) put
        | inr other ↦ elim (Bool-cases (qos == 2)) [
          | inl two ↦ rw (other, two) put
          | inr none ↦ rw (other, none) put
        ]
      ]
  handler-IsInBounds now got (evt_pubrec (pos zero) message_id) c honest h = h
  handler-IsInBounds now got (evt_pubrec (pos (suc n)) message_id) c honest h = h
  handler-IsInBounds now got (evt_pubrec (negsuc n) message_id) c honest h = h
  handler-IsInBounds now got (evt_pubrel message_id) c honest h = h
  handler-IsInBounds now got (evt_pubcomp result message_id) c honest h = h
  handler-IsInBounds now got evt_pingresp c honest h = h

  -- However many packets come, the queue never holds more than 16 messages, and each fits its arrays,
  -- with a topic of at most 127 bytes and a payload of at most 699, if the library never gives more
  -- bytes than it is asked for.
  pub handle_calls-IsInBounds :
      (calls : List (Call Net read_payload)) (c : Client Net read_payload)
      → IsHonest
      → IsInBounds c.rx
      → IsInBounds (handle_calls Net read_payload calls c).rx
  unfolding handle_calls
  handle_calls-IsInBounds [] c honest h = h
  handle_calls-IsInBounds (call ∷ rest) c honest h =
      let before : Client Net read_payload = record c {
        rx = drop call.taken c.rx;
        chan = call.status;
      } in
      handle_calls-IsInBounds rest
        (mqtt_evt_handler Net read_payload call.now call.got call.evt before) honest
        (handler-IsInBounds call.now call.got call.evt before honest
          (drop-IsInBounds call.taken c.rx h))
