-- ===== src/Mqtt/Queue.antt =====
-- src/mqtt/ha_mqtt_adapter.c: `alloc_mid` and `ha_send_data_from_q_to_mqtt`, which sends the first
-- message of the queue MQTT_MSGQ_TX.
pub mod Order
use cedar_switch_3i3o_power.Common.{
  ℕ, zero, suc, ◌+◌, ◌%◌, ◌^◌, Bool, true, false, ◌||◌, Option, none, some, List, [], ◌∷◌, ◌==◌,
  if◌then◌else◌, ℤ, pos, is_zero, e_inval, e_no_data,
}
use cedar_switch_3i3o_power.Common.CString.{Bytes, is_empty}

-- mqtt_msg_t, with the strings in its arrays.
pub record MqttMsg : Type 0 where
  pub topic : Bytes
  pub payload : Bytes
  pub qos : ℕ
  pub retain : Bool

-- mqtt_publish_param as the function fills it in.
pub record PublishParam : Type 0 where
  pub message : MqttMsg
  pub dup_flag : Bool
  pub message_id : ℕ

-- `next_mid` has 16 bits.
unfoldable pub alloc_mid : ℕ → ℕ
alloc_mid next_mid = let n = (next_mid + 1) % 2 ^ 16 in if n == 0 then 1 else n

-- MQTT_QOS_1_AT_LEAST_ONCE or MQTT_QOS_2_EXACTLY_ONCE
abbrev pub needs_mid : MqttMsg → Bool
needs_mid msg = msg.qos == 1 || msg.qos == 2

-- `mqtt_publish` is the operating system's call, on the state of the connection.
module _ (Net : Type 0) (mqtt_publish : PublishParam → Net → ℤ × Net) where
  pub record Adapter : Type 0 where
    pub queue : List MqttMsg
    pub next_mid : ℕ
    pub net : Net

  -- The return code, the parameters if they were filled in, and the state.
  pub record Sent : Type 0 where
    pub rc : ℤ
    pub pub_param : Option PublishParam
    pub state : Adapter

  -- The pointers are those of the caller's variables, never NULL. Other threads only append to the
  -- queue, so that the call takes off the message that it has looked at.
  unfoldable pub send_data_from_q : Adapter → Sent
  send_data_from_q a = elim a.queue [
    | [] ↦ record { rc = e_no_data; pub_param = none; state = a }
    | msg ∷ rest ↦
        let mid = if needs_mid msg then alloc_mid a.next_mid else a.next_mid in
        let param : PublishParam = record {
          message = msg;
          dup_flag = false;
          message_id = if needs_mid msg then mid else 0;
        } in
        let published = mqtt_publish param a.net in
        if is_empty msg.topic
        then record {
          rc = e_inval;
          pub_param = some param;
          state = record a { queue = rest; next_mid = mid };
        }
        else if is_zero published.0
        then record {
          rc = pos 0;
          pub_param = some param;
          state = record { queue = rest; next_mid = mid; net = published.1 };
        }
        else record {
          rc = published.0;
          pub_param = some param;
          state = record a { next_mid = mid; net = published.1 };
        }
  ]

  abbrev pub cons_param : Option PublishParam → List PublishParam → List PublishParam
  cons_param none ps = ps
  cons_param (some p) ps = p ∷ ps

  -- Some calls in a row: what they have published, and the state.
  unfoldable pub send_times : ℕ → Adapter → List PublishParam × Adapter
  send_times zero a = ([], a)
  send_times (suc n) a =
      let sent = send_data_from_q a in
      let rest = send_times n sent.state in
      if is_zero sent.rc then (cons_param sent.pub_param rest.0, rest.1) else rest
