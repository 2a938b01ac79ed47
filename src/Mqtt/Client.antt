-- ===== src/Mqtt/Client.antt =====
-- src/mqtt/ha_mqtt.c: the loops of `mqtt_task`, which keeps the connection and publishes the queue.
pub mod Passes
pub mod Delivery
pub mod Complete
pub mod Settings
pub mod Subscribed
use cedar_switch_3i3o_power.Common.{
  ℕ, zero, suc, Bool, true, false, not, ◌&&◌, ◌||◌, Option, none, some, List, [], ◌∷◌, ◌++◌, ◌==◌,
  if◌then◌else◌, ℤ, pos, negsuc, is_neg, is_zero, ◌⊎◌,
}
use cedar_switch_3i3o_power.Common.CString.{Bytes}
use cedar_switch_3i3o_power.Bus.{MqttStatus, chan_read, chan_pub}
use cedar_switch_3i3o_power.Mqtt.Queue.{
  MqttMsg, PublishParam, Adapter, Sent, send_data_from_q, cons_param,
}
use cedar_switch_3i3o_power.Mqtt.Device.{Device}
use cedar_switch_3i3o_power.Mqtt.Setup.{ClientConfig}
use cedar_switch_3i3o_power.Mqtt.Adapter.{
  NetIf, SubscriptionList, ha_mqtt_init, ha_mqtt_subscribe_topiks,
}

-- rc != 0 && rc != -EAGAIN
abbrev pub stops : ℤ → Bool
stops (pos n) = not (n == 0)
stops (negsuc n) = not (n == 10)

-- The calls of the MQTT library, on the state of its client.
pub record Library : Type 1 where
  pub Net : Type 0
  pub mqtt_client_init : Net → Net
  pub mqtt_connect : ClientConfig → Net → ℤ × Net
  pub mqtt_publish : PublishParam → Net → ℤ × Net
  pub mqtt_subscribe : SubscriptionList → Net → ℤ × Net
  pub mqtt_input : Net → ℤ × Net
  pub mqtt_live : Net → ℤ × Net
  pub mqtt_disconnect : Net → Net

-- What a round finds: the read of the status channel, the answers of the hardware and of the network
-- interface, a random number, and what the other threads have put into the queue meanwhile.
pub record ClientSeen : Type 0 where
  pub got_status : Bool
  pub status : MqttStatus
  pub hw_id : ℤ ⊎ List ℕ
  pub iface : Option NetIf
  pub random : ℕ
  pub arrived : List MqttMsg

-- `is_ipv4` and `is_ipv6` are `inet_pton` for the two families.
module _ (lib : Library) (is_ipv4 is_ipv6 : Bytes → Bool) where
  pub record ClientTask : Type 0 where
    pub adapter : Adapter lib.Net lib.mqtt_publish
    pub device : Device
    pub status : MqttStatus
    pub subscribed : Bool

  -- Whether the loop goes on, what was published, and the state.
  pub record ClientOutcome : Type 0 where
    pub active : Bool
    pub published : List PublishParam
    pub task : ClientTask

  abbrev pub set_net : lib.Net → ClientTask → ClientTask
  set_net net t = record t { adapter = record t.adapter { net = net } }

  abbrev pub stopped : ClientTask → ClientOutcome
  stopped t = record { active = false; published = []; task = t }

  -- if (mqtt_subscrabed)
  unfoldable pub publish_one : ClientTask → ClientOutcome
  publish_one t =
      let sent = send_data_from_q lib.Net lib.mqtt_publish t.adapter in
      record {
        active = true;
        published =
            if is_zero sent.rc then cons_param lib.Net lib.mqtt_publish sent.pub_param [] else [];
        task = record t { adapter = sent.state };
      }

  unfoldable pub subscribe : ClientSeen → ClientTask → ClientOutcome
  subscribe seen t =
      let init = ha_mqtt_init is_ipv4 is_ipv6 seen.hw_id seen.iface t.device in
      let net = if is_neg init.0 then lib.mqtt_disconnect t.adapter.net else t.adapter.net in
      let answer = ha_mqtt_subscribe_topiks lib.Net lib.mqtt_subscribe init.1 seen.random net in
      let named : ClientTask = record t { device = init.1 } in
      let task =
        if is_neg answer.0
        then set_net (lib.mqtt_disconnect answer.1) named
        else record (set_net answer.1 named) { subscribed = true } in
      record { active = true; published = []; task = task }

  -- mqtt_input and mqtt_live, which begin a round of both loops: whether the loop goes on, and the
  -- state of the library.
  unfoldable pub serve : lib.Net → Bool × lib.Net
  serve net =
      let input = lib.mqtt_input net in
      let live = lib.mqtt_live input.1 in
      if stops input.0
      then (false, input.1)
      else if stops live.0
      then (false, live.1)
      else (true, live.1)

  unfoldable pub client_round : ClientSeen → ClientTask → ClientOutcome
  client_round seen t =
      let served = serve t.adapter.net in
      let t1 = set_net served.1 t in
      let t2 : ClientTask = record t1 { status = chan_read seen.got_status seen.status t.status } in
      if not served.0
      then stopped t1
      else if not t2.status.connected
      then stopped t2
      else if t2.subscribed
      then publish_one t2
      else subscribe seen t2

  -- The messages that arrive between two rounds are at the end of the queue.
  unfoldable pub arrive : List MqttMsg → ClientTask → ClientTask
  arrive ms t = record t { adapter = record t.adapter { queue = t.adapter.queue ++ ms } }

  unfoldable pub client_rounds : List ClientSeen → ClientTask → ClientOutcome
  client_rounds [] t = record { active = true; published = []; task = t }
  client_rounds (seen ∷ rest) t =
      let here = client_round seen (arrive seen.arrived t) in
      let later = client_rounds rest here.task in
      if here.active then record later { published = here.published ++ later.published } else here

  -- The rounds that wait for the connection; `left` of the 100 are still to go, `seen` says what each
  -- of them finds.
  unfoldable pub wait_loop : (ℕ → ClientSeen) → ℕ → ClientTask → ClientTask
  wait_loop seen zero t = t
  wait_loop seen (suc left) t =
      let served = serve t.adapter.net in
      let t1 = set_net served.1 (arrive (seen left).arrived t) in
      let t2 : ClientTask = record t1 {
        status = chan_read (seen left).got_status (seen left).status t.status;
      } in
      let later = wait_loop seen left t2 in
      if not served.0 then t1 else if t2.status.connected then t2 else later

  -- The message that the task publishes on the status channel, and leaves in its variable, once
  -- mqtt_connect has returned 0.
  abbrev pub connecting : MqttStatus
  connecting = record { seq = 0; enabled = true; connected = false }

  -- From there on to the end of the inner loop: the status channel after the first publication, and
  -- how the inner loop ends.
  unfoldable pub client_session :
      Bool
      → MqttStatus
      → (ℕ → ClientSeen)
      → List ClientSeen
      → ClientTask
      → MqttStatus × ClientOutcome
  client_session got chan waits rounds t =
      let waited = wait_loop waits 100 (record t { status = connecting }) in
      (chan_pub got connecting chan, client_rounds rounds (record waited { subscribed = false }))
