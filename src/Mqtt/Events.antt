-- ===== src/Mqtt/Events.antt =====
-- src/mqtt/ha_mqtt_callback.c: `mqtt_evt_handler`, which the MQTT library calls for each packet.
pub mod Payload
pub mod Fuel
pub mod Bounds
pub mod Full
pub mod Pins
use cedar_switch_3i3o_power.Common.{
  ℕ, zero, suc, ◌+◌, ◌-◌, ◌%◌, ◌^◌, min, Bool, true, false, not, ◌&&◌, ◌||◌, Option, none, some,
  List, [], ◌∷◌, ◌++◌, ◌==◌, ltb, leb, if◌then◌else◌, length, take, drop, ℤ, pos, negsuc,
}
use cedar_switch_3i3o_power.Common.CString.{Bytes, until_nul}
use cedar_switch_3i3o_power.Bus.{MqttStatus, chan_pub}
use cedar_switch_3i3o_power.Mqtt.Queue.{MqttMsg}

-- sizeof(mqtt_message.topic), sizeof(mqtt_message.payload) and sizeof(drain_buf)
abbrev pub topic_size : ℕ
topic_size = 128

abbrev pub payload_size : ℕ
payload_size = 700

abbrev pub drain_size : ℕ
drain_size = 128

-- The number of messages that MQTT_MSGQ_RX holds.
abbrev pub queue_size : ℕ
queue_size = 16

-- mqtt_read_publish_payload, on the state of the client: a call asks for at most so many bytes. An
-- error is a negative return code; otherwise the bytes are given, and their number is returned.
pub data Got : Type 0 where
  failed : Got
  bytes : Bytes → Got

module _ (Net : Type 0) (read_payload : ℕ → Net → Got × Net) where
  -- while (got < to_read && got < sizeof(payload) - 1): the bytes that were read. Every round but the
  -- last reads a byte, so that one round for each byte of the array, and one more, are enough fuel.
  unfoldable pub read_loop : ℕ → ℕ → Bytes → Net → Bytes × Net
  read_loop zero to_read got net = (got, net)
  read_loop (suc fuel) to_read got net =
      let answer = read_payload (payload_size - 1 - length got) net in
      if ltb (length got) to_read && ltb (length got) (payload_size - 1)
      then elim answer.0 [
        | failed ↦ (got, answer.1)
        | bytes [] ↦ (got, answer.1)
        | bytes (c ∷ cs) ↦ read_loop fuel to_read (got ++ c ∷ cs) answer.1
      ]
      else (got, net)

  -- while (remain > 0)
  unfoldable pub drain_loop : ℕ → ℕ → Net → Net
  drain_loop zero remain net = net
  drain_loop (suc fuel) remain net =
      let answer = read_payload (min drain_size remain) net in
      if remain == 0 then net else elim answer.0 [
        | failed ↦ answer.1
        | bytes [] ↦ answer.1
        | bytes (c ∷ cs) ↦ drain_loop fuel (remain - length (c ∷ cs)) answer.1
      ]

  unfoldable pub read_publish : ℕ → Net → Bytes × Net
  read_publish to_read net =
      if to_read == 0
      then ([], net)
      else let read = read_loop payload_size to_read [] net in
        if ltb (length read.0) to_read
        then (read.0, drain_loop (to_read + 1) (to_read - length read.0) read.1)
        else read

-- The packets that the handler answers, with their identifier.
pub data Ack : Type 0 where
  puback pubrec pubrel pubcomp : ℕ → Ack

-- A packet of the library, with what the handler reads of it: a PUBLISH has the topic, the length of
-- the payload, the quality of service, the retain flag and the identifier.
pub data Evt : Type 0 where
  evt_connack : ℤ → Evt
  evt_disconnect : Evt
  evt_puback : ℤ → ℕ → Evt
  evt_publish : Bytes → ℕ → ℕ → Bool → ℕ → Evt
  evt_pubrec : ℤ → ℕ → Evt
  evt_pubrel : ℕ → Evt
  evt_pubcomp : ℤ → ℕ → Evt
  evt_pingresp : Evt

module _ (Net : Type 0) (read_payload : ℕ → Net → Got × Net) where
  -- The library's connection, the queue MQTT_MSGQ_RX, the static variable `mqtt_conn_stat`, the
  -- status channel, and the packets that the handler has asked the library to send.
  pub record Client : Type 0 where
    pub net : Net
    pub rx : List MqttMsg
    pub conn_stat : MqttStatus
    pub chan : MqttStatus
    pub acks : List Ack

  -- mqtt_conn_stat.connected = up; the sequence number is the uptime, in 64 bits.
  unfoldable pub set_connected : ℕ → Bool → Bool → Client → Client
  set_connected now got up c =
      let stat : MqttStatus = record c.conn_stat { connected = up; seq = now % 2 ^ 64 } in
      record c { conn_stat = stat; chan = chan_pub got stat c.chan }

  -- k_msgq_put(&MQTT_MSGQ_RX, …, K_NO_WAIT)
  unfoldable pub queue_put : MqttMsg → List MqttMsg → List MqttMsg
  queue_put msg rx = if ltb (length rx) queue_size then rx ++ msg ∷ [] else rx

  abbrev pub send_ack : Ack → Client → Client
  send_ack ack c = record c { acks = c.acks ++ ack ∷ [] }

  unfoldable pub on_publish : Bytes → ℕ → ℕ → Bool → ℕ → Client → Client
  on_publish topic to_read qos retain message_id c =
      let read = read_publish Net read_payload to_read c.net in
      let msg : MqttMsg = record {
        topic = until_nul (take (topic_size - 1) topic);
        payload = until_nul read.0;
        qos = qos;
        retain = retain;
      } in
      let c' : Client = record c { net = read.1; rx = queue_put msg c.rx } in
      if qos == 1
      then send_ack (puback message_id) c'
      else if qos == 2
      then send_ack (pubrec message_id) c'
      else c'

  unfoldable pub on_pubrec : ℤ → ℕ → Client → Client
  on_pubrec (pos zero) message_id c = send_ack (pubrel message_id) c
  on_pubrec result message_id c = c

  unfoldable pub on_pubrel : ℕ → Client → Client
  on_pubrel message_id c = send_ack (pubcomp message_id) c

  -- A failed acknowledgement is only logged. `now` is the uptime, `got` whether the handler gets the
  -- channel.
  unfoldable pub mqtt_evt_handler : ℕ → Bool → Evt → Client → Client
  mqtt_evt_handler now got (evt_connack (pos zero)) c = set_connected now got true c
  mqtt_evt_handler now got (evt_connack result) c = c
  mqtt_evt_handler now got evt_disconnect c = set_connected now got false c
  mqtt_evt_handler now got (evt_puback result message_id) c = c
  mqtt_evt_handler now got (evt_publish topic to_read qos retain message_id) c =
      on_publish topic to_read qos retain message_id c
  mqtt_evt_handler now got (evt_pubrec result message_id) c = on_pubrec result message_id c
  mqtt_evt_handler now got (evt_pubrel message_id) c = on_pubrel message_id c
  mqtt_evt_handler now got (evt_pubcomp result message_id) c = c
  mqtt_evt_handler now got evt_pingresp c = c

  -- Packets one after the other, each with its `now` and `got`; in between, other threads take
  -- messages from the queue and leave `status` in the status channel.
  pub record Call : Type 0 where
    pub now : ℕ
    pub got : Bool
    pub evt : Evt
    pub taken : ℕ
    pub status : MqttStatus

  unfoldable pub handle_calls : List Call → Client → Client
  handle_calls [] c = c
  handle_calls (call ∷ rest) c = handle_calls rest (
      mqtt_evt_handler call.now call.got call.evt
        (record c { rx = drop call.taken c.rx; chan = call.status }))
