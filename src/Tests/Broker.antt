-- ===== src/Tests/Broker.antt =====
-- Both tasks of the MQTT client together at a concrete input.
use cedar_switch_3i3o_power.Common.{
  ◌≡◌, refl, false, true, List, [], ◌∷◌, ◌++◌, arith, ◌∙◌, ap, All, inl, inr, Bool-cases,
}
use cedar_switch_3i3o_power.Web.MqttSettings.{zero_config}
use cedar_switch_3i3o_power.Mqtt.Queue.{MqttMsg}
use cedar_switch_3i3o_power.Mqtt.Device.{hex_bytes}
use mathlib.Core.List.{append-nil}
use cedar_switch_3i3o_power.Mqtt.Queue.Order.{sendable}
use cedar_switch_3i3o_power.Mqtt.Setup.{dns_query}
use cedar_switch_3i3o_power.Mqtt.Client.{ClientSeen, ClientTask, arrive, serve, client_round}
use cedar_switch_3i3o_power.Mqtt.Client.Delivery.{messages, rounds_heard}
use cedar_switch_3i3o_power.Mqtt.Client.Passes.{PassSeen, mqtt_task_passes}
use cedar_switch_3i3o_power.Mqtt.Client.Complete.{wait_heard, session_heard, pass_heard, task_heard}
use cedar_switch_3i3o_power.Mqtt.Task.Shown.{after}
use cedar_switch_3i3o_power.Mqtt.Task.Informed.{named}
use cedar_switch_3i3o_power.Mqtt.Task.Session.{SessionSeen, ha_sessions}
use cedar_switch_3i3o_power.Mqtt.Task.Pass.{IsInformed}
use cedar_switch_3i3o_power.Mqtt.Broker.{published-IsInformed}
use cedar_switch_3i3o_power.Tests.HomeAssistant.{
  box, hw_id, online, start, undefined_shift, chan_before, switching, lost_round, unknown,
  pass_seen, wait_ends,
}
use cedar_switch_3i3o_power.Tests.Client.{accepting, valid_text, idle, pass_known, connected_seen}

-- The announcements break off after the first one.
abbrev short_pass : SessionSeen
short_pass = record pass_seen {
  announced = λ i. (true, record online { connected = false });
  rounds = switching ∷ lost_round ∷ [];
}

abbrev reported : List MqttMsg
reported =
    (ha_sessions [] undefined_shift valid_text valid_text (short_pass ∷ []) box chan_before
      start).sent

abbrev quiet : ClientSeen
quiet = record connected_seen { arrived = [] }

-- The client subscribes, and then publishes what is in the queue.
abbrev publishing : List MqttMsg → PassSeen
publishing ms = record pass_known { queued = ms; waits = λ i. quiet; rounds = quiet ∷ quiet ∷ [] }

abbrev empty_idle : ClientTask accepting valid_text valid_text
empty_idle = record idle { adapter = record { queue = []; next_mid = 1; net = tt } }

quiet_rounds :
    (rounds : List ClientSeen) (t : ClientTask accepting valid_text valid_text)
    → All (λ seen. seen.arrived ≡ []) rounds
    → rounds_heard accepting valid_text valid_text rounds t ≡ []
unfolding rounds_heard
quiet_rounds [] t nothing = refl
quiet_rounds (seen ∷ rest) t (none_came, nothing) =
    let here =
      client_round accepting valid_text valid_text seen
        (arrive accepting valid_text valid_text seen.arrived t) in
    let later = quiet_rounds rest here.task nothing in
    elim (Bool-cases here.active) [
      | inl active ↦ rw (active) (
          ap (λ s. s ++ rounds_heard accepting valid_text valid_text rest here.task) none_came
          ∙ later)
      | inr over ↦ rw (over) (ap (λ s. s ++ []) none_came)
    ]

heard_all :
    (ms : List MqttMsg)
    → task_heard accepting valid_text valid_text 0 zero_config (publishing ms ∷ []) empty_idle ≡ ms
unfolding task_heard pass_heard session_heard wait_heard serve dns_query arrive
heard_all ms =
    ap (λ s. (ms ++ s) ++ []) (quiet_rounds (quiet ∷ quiet ∷ []) _ (refl, (refl, tt)))
    ∙ append-nil (ms ++ [])
    ∙ append-nil ms

published-IsInformed_example :
    IsInformed [] undefined_shift valid_text valid_text
      (named (hex_bytes hw_id))
      (after [] undefined_shift
        (named (hex_bytes hw_id))
        (messages
            (mqtt_task_passes accepting valid_text valid_text 0 zero_config
              (publishing reported ∷ [])
              empty_idle).0
          ++ sendable
              (mqtt_task_passes accepting valid_text valid_text 0 zero_config
                (publishing reported ∷ [])
                empty_idle).1.adapter.queue)
        unknown)
      (ha_sessions [] undefined_shift valid_text valid_text
        (short_pass ∷ [])
        box
        chan_before
        start).state
published-IsInformed_example =
    published-IsInformed [] undefined_shift valid_text valid_text hw_id (omega arith) (omega arith)
      accepting 0 short_pass switching (lost_round ∷ []) [] box chan_before start unknown
      zero_config (publishing reported ∷ []) empty_idle (refl, tt) wait_ends refl
      (refl, refl, (omega arith, omega arith)) refl (heard_all reported)
