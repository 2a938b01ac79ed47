-- ===== src/Mqtt/Client/Passes.antt =====
-- src/mqtt/ha_mqtt.c: the outer loop of `mqtt_task`, which looks the broker up, connects and runs a
-- session, and tries again when that fails or ends.
use cedar_switch_3i3o_power.Common.{
  ℕ, Bool, not, Option, none, some, List, [], ◌∷◌, ◌++◌, if◌then◌else◌, is_zero,
}
use cedar_switch_3i3o_power.Common.CString.{Bytes}
use cedar_switch_3i3o_power.Bus.{MqttStatus}
use cedar_switch_3i3o_power.Mqtt.Queue.{MqttMsg, PublishParam}
use cedar_switch_3i3o_power.Mqtt.Setup.{AddrInfo, Lookup, dns_query, ClientConfig, client_init}
use cedar_switch_3i3o_power.Mqtt.Client.{
  Library, ClientSeen, ClientTask, set_net, arrive, client_session,
}
use cedar_switch_3i3o_power.Web.MqttSettings.{MqttConfig}

-- AF_INET and SOCK_DGRAM
abbrev pub af_inet : ℕ
af_inet = 1

abbrev pub sock_dgram : ℕ
sock_dgram = 2

-- What a pass of the loop finds: what the other threads have put into the queue since the pass
-- before, the name service, the variables `addr` and `addrlen`, the status channel and whether its
-- publication gets it, and what the rounds of the two inner loops find.
pub record PassSeen : Type 0 where
  pub queued : List MqttMsg
  pub getaddrinfo : Lookup
  pub stack : AddrInfo
  pub got_pub : Bool
  pub chan : MqttStatus
  pub waits : ℕ → ClientSeen
  pub rounds : List ClientSeen

-- `null_length` is what strlen gives for a NULL pointer; `is_ipv4` and `is_ipv6` are `inet_pton`.
module _ (lib : Library) (is_ipv4 is_ipv6 : Bytes → Bool) (null_length : ℕ) where
  -- With what mqtt_connect was called, what was published, the status channel and the state.
  pub record PassOutcome : Type 0 where
    pub config : Option ClientConfig
    pub published : List PublishParam
    pub chan : MqttStatus
    pub task : ClientTask lib is_ipv4 is_ipv6

  unfoldable pub connected_pass :
      ClientConfig → PassSeen → ClientTask lib is_ipv4 is_ipv6 → PassOutcome
  connected_pass config seen t =
      let (chan, out) =
        client_session lib is_ipv4 is_ipv6 seen.got_pub seen.chan seen.waits seen.rounds t in
      record { config = some config; published = out.published; chan = chan; task = out.task }

  unfoldable pub mqtt_task_pass :
      MqttConfig → PassSeen → ClientTask lib is_ipv4 is_ipv6 → PassOutcome
  mqtt_task_pass sett seen t =
      let t0 = arrive lib is_ipv4 is_ipv6 seen.queued t in
      let found = dns_query seen.getaddrinfo sett.host sett.port af_inet sock_dgram seen.stack in
      let addr = found.1 in
      let config = client_init null_length sett t0.device addr.ai_addr in
      let answer = lib.mqtt_connect config (lib.mqtt_client_init t0.adapter.net) in
      let t1 = set_net lib is_ipv4 is_ipv6 answer.1 t0 in
      if not (is_zero found.0)
      then record { config = none; published = []; chan = seen.chan; task = t0 }
      else if not (is_zero answer.0)
      then record { config = some config; published = []; chan = seen.chan; task = t1 }
      else connected_pass config seen t1

  -- Some passes of the loop: what was published in all of them, and the state.
  unfoldable pub mqtt_task_passes :
      MqttConfig
      → List PassSeen
      → ClientTask lib is_ipv4 is_ipv6
      → List PublishParam × ClientTask lib is_ipv4 is_ipv6
  mqtt_task_passes sett [] t = ([], t)
  mqtt_task_passes sett (seen ∷ rest) t =
      let here = mqtt_task_pass sett seen t in
      let later = mqtt_task_passes sett rest here.task in (here.published ++ later.0, later.1)
