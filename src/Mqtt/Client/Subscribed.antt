-- ===== src/Mqtt/Client/Subscribed.antt =====
-- `mqtt_task` (src/mqtt/ha_mqtt.c) publishes only on a connection on which it has subscribed.
use cedar_switch_3i3o_power.Common.{
  ℕ, ◌≡◌, refl, inl, inr, Bool, true, false, List, [], ◌∷◌, if◌then◌else◌, is_neg, Bool-cases,
}
use cedar_switch_3i3o_power.Common.CString.{Bytes}
use cedar_switch_3i3o_power.Bus.{MqttStatus, chan_read}
use cedar_switch_3i3o_power.Mqtt.Device.{Device}
use cedar_switch_3i3o_power.Mqtt.Adapter.{SubscriptionList, ha_mqtt_init, ha_mqtt_subscribe_topiks}
use cedar_switch_3i3o_power.Mqtt.Adapter.Subscription.{subscribe_three}
use cedar_switch_3i3o_power.Mqtt.Client.{
  Library, ClientSeen, ClientTask, ClientOutcome, set_net, subscribe, serve, client_round, arrive,
  client_rounds, client_session,
}

module _ (lib : Library) (is_ipv4 is_ipv6 : Bytes → Bool) where
  -- mqtt_subscribe returns an error for every request. A refusal of the broker comes later, in a packet
  -- that the handler ignores.
  abbrev pub IsRefusing : Type 0
  IsRefusing =
      (list : SubscriptionList) (net : lib.Net) → is_neg (lib.mqtt_subscribe list net).0 ≡ true

  subscribe_topiks_refused :
      (d : Device) (random : ℕ) (net : lib.Net)
      → IsRefusing
      → is_neg (ha_mqtt_subscribe_topiks lib.Net lib.mqtt_subscribe d random net).0 ≡ true
  unfolding ha_mqtt_subscribe_topiks
  subscribe_topiks_refused d random net refusing = rw (is_neg, subscribe_three d) (refusing _ net)

  abbrev IsSilent : ClientOutcome lib is_ipv4 is_ipv6 → Type 0
  IsSilent out = (out.published ≡ []) × (out.task.subscribed ≡ false)

  subscribe-IsSilent :
      (seen : ClientSeen) (t : ClientTask lib is_ipv4 is_ipv6)
      → IsRefusing
      → t.subscribed ≡ false
      → IsSilent (subscribe lib is_ipv4 is_ipv6 seen t)
  unfolding subscribe
  subscribe-IsSilent seen t refusing new =
      let init = ha_mqtt_init is_ipv4 is_ipv6 seen.hw_id seen.iface t.device in
      let net = if is_neg init.0 then lib.mqtt_disconnect t.adapter.net else t.adapter.net in
      rw (subscribe_topiks_refused init.1 seen.random net refusing) (refl, new)

  client_round-IsSilent :
      (seen : ClientSeen) (t : ClientTask lib is_ipv4 is_ipv6)
      → IsRefusing
      → t.subscribed ≡ false
      → IsSilent (client_round lib is_ipv4 is_ipv6 seen t)
  unfolding client_round
  client_round-IsSilent seen t refusing new =
      let served = serve lib is_ipv4 is_ipv6 t.adapter.net in
      let status = chan_read seen.got_status seen.status t.status in
      elim (Bool-cases served.0) [
        | inr failed ↦ rw (failed) (refl, new)
        | inl up ↦ elim (Bool-cases status.connected) [
          | inr lost ↦ rw (up, lost) (refl, new)
          | inl connected ↦
              rw (up, connected, new)
                (subscribe-IsSilent seen
                  (record (set_net lib is_ipv4 is_ipv6 served.1 t) {
                    status = status;
                    subscribed = false;
                  })
                  refusing refl)
        ]
      ]

  client_rounds-IsSilent :
      (rounds : List ClientSeen) (t : ClientTask lib is_ipv4 is_ipv6)
      → IsRefusing
      → t.subscribed ≡ false
      → (client_rounds lib is_ipv4 is_ipv6 rounds t).published ≡ []
  unfolding client_rounds arrive
  client_rounds-IsSilent [] t refusing new = refl
  client_rounds-IsSilent (seen ∷ rest) t refusing new =
      let here =
        client_round lib is_ipv4 is_ipv6 seen (arrive lib is_ipv4 is_ipv6 seen.arrived t) in
      let (silent, same) =
        client_round-IsSilent seen (arrive lib is_ipv4 is_ipv6 seen.arrived t) refusing new in
      elim (Bool-cases here.active) [
        | inl on ↦ rw (on) (rw (silent) (client_rounds-IsSilent rest here.task refusing same))
        | inr off ↦ rw (off) silent
      ]

  -- In a session in which mqtt_subscribe returns an error for every request nothing is published,
  -- whatever was subscribed to before and however often the status channel shows a connection.
  pub client_session_refused :
      (got : Bool) (chan : MqttStatus) (waits : ℕ → ClientSeen) (rounds : List ClientSeen)
      (t : ClientTask lib is_ipv4 is_ipv6)
      → IsRefusing
      → (client_session lib is_ipv4 is_ipv6 got chan waits rounds t).1.published ≡ []
  unfolding client_session
  client_session_refused got chan waits rounds t refusing =
      client_rounds-IsSilent rounds _ refusing refl
