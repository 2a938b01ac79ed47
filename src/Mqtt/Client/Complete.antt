-- ===== src/Mqtt/Client/Complete.antt =====
-- What the outer loop of `mqtt_task` (src/mqtt/ha_mqtt.c) publishes of the queue, over all its
-- connections.
use mathlib.Core.List.{append_assoc, append-nil}
use cedar_switch_3i3o_power.Common.{
  ℕ, zero, suc, ◌≡◌, ◌∙◌, sym, ap, inl, inr, Bool, false, not, List, [], ◌∷◌, ◌++◌, if◌then◌else◌,
  is_zero, Bool-cases,
}
use cedar_switch_3i3o_power.Common.CString.{Bytes}
use cedar_switch_3i3o_power.Bus.{chan_read}
use cedar_switch_3i3o_power.Mqtt.Queue.{MqttMsg}
use cedar_switch_3i3o_power.Mqtt.Queue.Order.{sendable}
use cedar_switch_3i3o_power.Mqtt.Setup.{ClientConfig, dns_query, client_init}
use cedar_switch_3i3o_power.Mqtt.Client.{
  Library, ClientSeen, ClientTask, set_net, arrive, serve, wait_loop, client_session, connecting,
}
use cedar_switch_3i3o_power.Mqtt.Client.Delivery.{
  messages, rounds_heard, client_rounds_order, delivered_then, queue_of,
}
use cedar_switch_3i3o_power.Mqtt.Client.Passes.{
  PassSeen, PassOutcome, connected_pass, mqtt_task_pass, mqtt_task_passes, af_inet, sock_dgram,
}
use cedar_switch_3i3o_power.Web.MqttSettings.{MqttConfig}

module _ (lib : Library) (is_ipv4 is_ipv6 : Bytes → Bool) where
  -- What the other threads put into the queue before the rounds of the wait that are made.
  unfoldable pub wait_heard : (ℕ → ClientSeen) → ℕ → ClientTask lib is_ipv4 is_ipv6 → List MqttMsg
  wait_heard waits zero t = []
  wait_heard waits (suc left) t =
      let served = serve lib is_ipv4 is_ipv6 t.adapter.net in
      let seen = waits left in
      let t1 = set_net lib is_ipv4 is_ipv6 served.1 (arrive lib is_ipv4 is_ipv6 seen.arrived t) in
      let t2 : ClientTask lib is_ipv4 is_ipv6 = record t1 {
        status = chan_read seen.got_status seen.status t.status;
      } in
      let later = wait_heard waits left t2 in
      seen.arrived ++ (if not served.0 then [] else if t2.status.connected then [] else later)

  -- The wait for the connection takes nothing off the queue.
  wait_loop_queue :
      (waits : ℕ → ClientSeen) (left : ℕ) (t : ClientTask lib is_ipv4 is_ipv6)
      → queue_of lib is_ipv4 is_ipv6 (wait_loop lib is_ipv4 is_ipv6 waits left t)
        ≡ queue_of lib is_ipv4 is_ipv6 t ++ wait_heard waits left t
  unfolding wait_loop arrive wait_heard
  wait_loop_queue waits zero t = sym (append-nil t.adapter.queue)
  wait_loop_queue waits (suc left) t =
      let served = serve lib is_ipv4 is_ipv6 t.adapter.net in
      let seen = waits left in
      let t1 = set_net lib is_ipv4 is_ipv6 served.1 (arrive lib is_ipv4 is_ipv6 seen.arrived t) in
      let t2 : ClientTask lib is_ipv4 is_ipv6 = record t1 {
        status = chan_read seen.got_status seen.status t.status;
      } in
      let later = wait_loop_queue waits left t2 in
      let one = ap (λ s. t.adapter.queue ++ s) (sym (append-nil seen.arrived)) in
      elim (Bool-cases served.0) [
        | inr failed ↦ rw (failed) one
        | inl up ↦ elim (Bool-cases t2.status.connected) [
          | inl connected ↦ rw (up, connected) one
          | inr waiting ↦ rw (up, waiting) (later ∙ append_assoc t.adapter.queue seen.arrived _)
        ]
      ]

  -- The task at the beginning of the wait, and of the inner loop.
  abbrev begun : ClientTask lib is_ipv4 is_ipv6 → ClientTask lib is_ipv4 is_ipv6
  begun t = record t { status = connecting lib is_ipv4 is_ipv6 }

  abbrev ready : (ℕ → ClientSeen) → ClientTask lib is_ipv4 is_ipv6 → ClientTask lib is_ipv4 is_ipv6
  ready waits t = record (wait_loop lib is_ipv4 is_ipv6 waits 100 (begun t)) { subscribed = false }

  -- The same for a session.
  unfoldable pub session_heard :
      (ℕ → ClientSeen) → List ClientSeen → ClientTask lib is_ipv4 is_ipv6 → List MqttMsg
  session_heard waits rounds t =
      wait_heard waits 100 (begun t) ++ rounds_heard lib is_ipv4 is_ipv6 rounds (ready waits t)

module _ (lib : Library) (is_ipv4 is_ipv6 : Bytes → Bool) (null_length : ℕ) where
  -- What the other threads put into the queue before a pass and before the rounds that it makes.
  unfoldable pub pass_heard : MqttConfig → PassSeen → ClientTask lib is_ipv4 is_ipv6 → List MqttMsg
  pass_heard sett seen t =
      let t0 = arrive lib is_ipv4 is_ipv6 seen.queued t in
      let found = dns_query seen.getaddrinfo sett.host sett.port af_inet sock_dgram seen.stack in
      let config = client_init null_length sett t0.device found.1.ai_addr in
      let answer = lib.mqtt_connect config (lib.mqtt_client_init t0.adapter.net) in
      let heard =
        session_heard lib is_ipv4 is_ipv6 seen.waits seen.rounds
          (set_net lib is_ipv4 is_ipv6 answer.1 t0) in
      seen.queued
      ++ (if not (is_zero found.0) then [] else if not (is_zero answer.0) then [] else heard)

  -- The same for some passes.
  unfoldable pub task_heard :
      MqttConfig → List PassSeen → ClientTask lib is_ipv4 is_ipv6 → List MqttMsg
  task_heard sett [] t = []
  task_heard sett (seen ∷ rest) t =
      pass_heard sett seen t
      ++ task_heard sett rest (mqtt_task_pass lib is_ipv4 is_ipv6 null_length sett seen t).task

  abbrev PassDelivers : PassOutcome lib is_ipv4 is_ipv6 null_length → List MqttMsg → Type 0
  PassDelivers out queue =
      messages out.published ++ sendable out.task.adapter.queue ≡ sendable queue

  connected_pass-PassDelivers :
      (config : ClientConfig) (seen : PassSeen) (t : ClientTask lib is_ipv4 is_ipv6)
      → PassDelivers
          (connected_pass lib is_ipv4 is_ipv6 null_length config seen t)
          (t.adapter.queue ++ session_heard lib is_ipv4 is_ipv6 seen.waits seen.rounds t)
  unfolding connected_pass client_session session_heard
  connected_pass-PassDelivers config seen t =
      let w = wait_heard lib is_ipv4 is_ipv6 seen.waits 100 (begun lib is_ipv4 is_ipv6 t) in
      let task = ready lib is_ipv4 is_ipv6 seen.waits t in
      let m = rounds_heard lib is_ipv4 is_ipv6 seen.rounds task in
      client_rounds_order lib is_ipv4 is_ipv6 seen.rounds task
      ∙ ap (λ q. sendable (q ++ m))
          (wait_loop_queue lib is_ipv4 is_ipv6 seen.waits 100 (begun lib is_ipv4 is_ipv6 t))
      ∙ ap sendable (append_assoc t.adapter.queue w m)

  mqtt_task_pass-PassDelivers :
      (sett : MqttConfig) (seen : PassSeen) (t : ClientTask lib is_ipv4 is_ipv6)
      → PassDelivers
          (mqtt_task_pass lib is_ipv4 is_ipv6 null_length sett seen t)
          (t.adapter.queue ++ pass_heard sett seen t)
  unfolding mqtt_task_pass arrive pass_heard
  mqtt_task_pass-PassDelivers sett seen t =
      let t0 = arrive lib is_ipv4 is_ipv6 seen.queued t in
      let found = dns_query seen.getaddrinfo sett.host sett.port af_inet sock_dgram seen.stack in
      let config = client_init null_length sett t0.device found.1.ai_addr in
      let answer = lib.mqtt_connect config (lib.mqtt_client_init t0.adapter.net) in
      let t1 = set_net lib is_ipv4 is_ipv6 answer.1 t0 in
      let none_made = ap (λ q. sendable (t.adapter.queue ++ q)) (sym (append-nil seen.queued)) in
      elim (Bool-cases (is_zero found.0)) [
        | inr failed ↦ rw (failed) none_made
        | inl known ↦ elim (Bool-cases (is_zero answer.0)) [
          | inr refused ↦ rw (known, refused) none_made
          | inl connected ↦
              rw (known, connected)
                (connected_pass-PassDelivers config seen t1
                  ∙ ap sendable (append_assoc t.adapter.queue seen.queued _))
        ]
      ]

  -- Over all its connections, whichever lookups, connections and sessions fail, what the task has
  -- published and what the queue still holds are together the messages with a topic, in their order
  -- and none twice: those of the queue at the start, and for each pass of its loop those that came
  -- before it and before the rounds that it has made.
  pub mqtt_task_order :
      (sett : MqttConfig) (passes : List PassSeen) (t : ClientTask lib is_ipv4 is_ipv6)
      → let (published, task) = mqtt_task_passes lib is_ipv4 is_ipv6 null_length sett passes t in
        messages published ++ sendable task.adapter.queue
        ≡ sendable (t.adapter.queue ++ task_heard sett passes t)
  unfolding mqtt_task_passes task_heard
  mqtt_task_order sett [] t = ap sendable (sym (append-nil t.adapter.queue))
  mqtt_task_order sett (seen ∷ rest) t =
      let here = mqtt_task_pass lib is_ipv4 is_ipv6 null_length sett seen t in
      delivered_then here.published _ t.adapter.queue (pass_heard sett seen t)
        here.task.adapter.queue (task_heard sett rest here.task) _
        (mqtt_task_pass-PassDelivers sett seen t) (mqtt_task_order sett rest here.task)
