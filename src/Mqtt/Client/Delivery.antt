-- ===== src/Mqtt/Client/Delivery.antt =====
-- What `mqtt_task` (src/mqtt/ha_mqtt.c) publishes of the queue.
use mathlib.Core.List.{append_assoc, append-nil}
use cedar_switch_3i3o_power.Common.{
  ◌≡◌, refl, ◌∙◌, sym, ap, inl, inr, Bool, List, [], ◌∷◌, ◌++◌, map, if◌then◌else◌, is_neg,
  Bool-cases,
}
use cedar_switch_3i3o_power.Common.CString.{Bytes, is_empty}
use cedar_switch_3i3o_power.Bus.{chan_read}
use cedar_switch_3i3o_power.Mqtt.Queue.{MqttMsg, PublishParam}
use cedar_switch_3i3o_power.Mqtt.Queue.Order.{sendable, send-Step}
use cedar_switch_3i3o_power.Mqtt.Adapter.{ha_mqtt_init, ha_mqtt_subscribe_topiks}
use cedar_switch_3i3o_power.Mqtt.Client.{
  Library, ClientSeen, ClientTask, ClientOutcome, publish_one, subscribe, serve, client_round,
  arrive, client_rounds,
}

sendable-append : (ms ns : List MqttMsg) → sendable (ms ++ ns) ≡ sendable ms ++ sendable ns
unfolding sendable
sendable-append [] ns = refl
sendable-append (m ∷ ms) ns = elim (Bool-cases (is_empty m.topic)) [
  | inl nameless ↦ rw (nameless) (sendable-append ms ns)
  | inr named ↦ rw (named) (ap (λ s. m ∷ s) (sendable-append ms ns))
]

-- The messages of the publications.
abbrev pub messages : List PublishParam → List MqttMsg
messages ps = map (λ p. p.message) ps

messages-append : (ps qs : List PublishParam) → messages (ps ++ qs) ≡ messages ps ++ messages qs
messages-append [] qs = refl
messages-append (p ∷ ps) qs = ap (λ s. p.message ∷ s) (messages-append ps qs)

-- Two deliveries, one after the other.
pub delivered_then :
    (ps qs : List PublishParam) (queue arrived between more rest : List MqttMsg)
    → messages ps ++ sendable between ≡ sendable (queue ++ arrived)
    → messages qs ++ rest ≡ sendable (between ++ more)
    → messages (ps ++ qs) ++ rest ≡ sendable (queue ++ (arrived ++ more))
delivered_then ps qs queue arrived between more rest first later =
    ap (λ s. s ++ rest) (messages-append ps qs)
    ∙ append_assoc (messages ps) (messages qs) rest
    ∙ ap (λ s. messages ps ++ s) (later ∙ sendable-append between more)
    ∙ sym (append_assoc (messages ps) (sendable between) (sendable more))
    ∙ ap (λ s. s ++ sendable more) first
    ∙ sym (sendable-append (queue ++ arrived) more)
    ∙ ap (sendable) (append_assoc queue arrived more)

module _ (lib : Library) (is_ipv4 is_ipv6 : Bytes → Bool) where
  abbrev pub queue_of : ClientTask lib is_ipv4 is_ipv6 → List MqttMsg
  queue_of t = t.adapter.queue

  -- Nothing is lost and nothing is sent twice.
  abbrev Delivers : ClientOutcome lib is_ipv4 is_ipv6 → List MqttMsg → Type 0
  Delivers out queue = messages out.published ++ sendable (queue_of out.task) ≡ sendable queue

  publish_one-Delivers :
      (t : ClientTask lib is_ipv4 is_ipv6)
      → Delivers (publish_one lib is_ipv4 is_ipv6 t) (queue_of t)
  unfolding publish_one
  publish_one-Delivers t =
      elim (send-Step lib.Net lib.mqtt_publish t.adapter.queue t.adapter.next_mid t.adapter.net) [
        | inl (p, ok, param, number, head) ↦ rw (ok) (rw (param) (sym head))
        | inr (failed, same) ↦ rw (failed) (sym same)
      ]

  subscribe-Delivers :
      (seen : ClientSeen) (t : ClientTask lib is_ipv4 is_ipv6)
      → Delivers (subscribe lib is_ipv4 is_ipv6 seen t) (queue_of t)
  unfolding subscribe
  subscribe-Delivers seen t =
      let init = ha_mqtt_init is_ipv4 is_ipv6 seen.hw_id seen.iface t.device in
      let net = if is_neg init.0 then lib.mqtt_disconnect t.adapter.net else t.adapter.net in
      let answer = ha_mqtt_subscribe_topiks lib.Net lib.mqtt_subscribe init.1 seen.random net in
      elim (Bool-cases (is_neg answer.0)) [
        | inl failed ↦ rw (failed) refl
        | inr done ↦ rw (done) refl
      ]

  client_round-Delivers :
      (seen : ClientSeen) (t : ClientTask lib is_ipv4 is_ipv6)
      → Delivers (client_round lib is_ipv4 is_ipv6 seen t) (queue_of t)
  unfolding client_round
  client_round-Delivers seen t =
      let served = serve lib is_ipv4 is_ipv6 t.adapter.net in
      let status = chan_read seen.got_status seen.status t.status in
      elim (Bool-cases served.0) [
        | inr failed ↦ rw (failed) refl
        | inl up ↦ elim (Bool-cases status.connected) [
          | inr lost ↦ rw (up, lost) refl
          | inl connected ↦ elim (Bool-cases t.subscribed) [
            | inl sub ↦ rw (up, connected, sub) (publish_one-Delivers _)
            | inr new ↦ rw (up, connected, new) (subscribe-Delivers seen _)
          ]
        ]
      ]

  -- What the other threads put into the queue before the rounds that are made.
  unfoldable pub rounds_heard : List ClientSeen → ClientTask lib is_ipv4 is_ipv6 → List MqttMsg
  rounds_heard [] t = []
  rounds_heard (seen ∷ rest) t =
      let here =
        client_round lib is_ipv4 is_ipv6 seen (arrive lib is_ipv4 is_ipv6 seen.arrived t) in
      let later = rounds_heard rest here.task in seen.arrived ++ (if here.active then later else [])

  -- However many rounds the inner loop has, and whatever the library answers, what it has published
  -- and what the queue still holds are together the messages with a topic, in their order and none
  -- twice: those of the queue at the start and those that came before the rounds it has made.
  pub client_rounds_order :
      (rounds : List ClientSeen) (t : ClientTask lib is_ipv4 is_ipv6)
      → messages (client_rounds lib is_ipv4 is_ipv6 rounds t).published
          ++ sendable (client_rounds lib is_ipv4 is_ipv6 rounds t).task.adapter.queue
        ≡ sendable (t.adapter.queue ++ rounds_heard rounds t)
  unfolding client_rounds arrive rounds_heard
  client_rounds_order [] t = ap (sendable) (sym (append-nil t.adapter.queue))
  client_rounds_order (seen ∷ rest) t =
      let here =
        client_round lib is_ipv4 is_ipv6 seen (arrive lib is_ipv4 is_ipv6 seen.arrived t) in
      let first : Delivers here (t.adapter.queue ++ seen.arrived) =
        client_round-Delivers seen (arrive lib is_ipv4 is_ipv6 seen.arrived t) in
      let later = client_rounds_order rest here.task in
      elim (Bool-cases here.active) [
        | inl on ↦ rw (on) (
            delivered_then here.published _ t.adapter.queue seen.arrived here.task.adapter.queue
              (rounds_heard rest here.task) _ first later)
        | inr off ↦
            rw (off)
              (first ∙ ap (λ s. sendable (t.adapter.queue ++ s)) (sym (append-nil seen.arrived)))
      ]
