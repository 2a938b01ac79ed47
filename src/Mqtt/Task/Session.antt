-- ===== src/Mqtt/Task/Session.antt =====
-- src/mqtt/ha_task.c: the outer loop of `ha_mqtt_task`, which names the device, waits for the
-- connection, announces the devices and runs the inner loop, and begins again when the connection
-- is lost.
use cedar_switch_3i3o_power.Common.{
  ℕ, Bool, true, false, not, Option, List, [], ◌∷◌, ◌++◌, if◌then◌else◌, ℤ, ◌⊎◌,
}
use cedar_switch_3i3o_power.Common.CString.{Bytes}
use cedar_switch_3i3o_power.Bus.{OutputsMsg, MqttStatus, chan_read}
use cedar_switch_3i3o_power.Mqtt.Queue.{MqttMsg}
use cedar_switch_3i3o_power.Mqtt.Device.{Device}
use cedar_switch_3i3o_power.Mqtt.Adapter.{NetIf, ha_mqtt_init}
use cedar_switch_3i3o_power.Mqtt.Report.{devices}
use cedar_switch_3i3o_power.Mqtt.Task.{HaState, TaskRound, register, ha_rounds}

-- do { … } while (!connected): what each read finds. Whether the loop has ended, and the variable.
unfoldable pub wait_connected : List (Bool × MqttStatus) → MqttStatus → Bool × MqttStatus
wait_connected [] status = (false, status)
wait_connected ((got, chan) ∷ rest) status =
    let status' = chan_read got chan status in
    let later = wait_connected rest status' in if status'.connected then (true, status') else later

-- What a pass of the loop finds: the answers of the hardware and of the network interface, the
-- reads of the wait, what the other threads have done to the outputs channel by the end of the
-- announcements, the reads between these, and the rounds of the inner loop.
pub record SessionSeen : Type 0 where
  pub hw_id : ℤ ⊎ List ℕ
  pub iface : Option NetIf
  pub waits : List (Bool × MqttStatus)
  pub others : OutputsMsg → OutputsMsg
  pub announced : ℕ → Bool × MqttStatus
  pub rounds : List TaskRound

-- Whether the pass has ended, the device, and the rest as for the inner loop.
pub record SessionOutcome : Type 0 where
  pub ended : Bool
  pub device : Device
  pub sent : List MqttMsg
  pub state : HaState
  pub chan : OutputsMsg

module _ (null_text : Bytes) (shifted_out : ℕ → ℕ) (is_ipv4 is_ipv6 : Bytes → Bool) where
  -- From the end of the wait on.
  unfoldable pub connected_session : Device → SessionSeen → OutputsMsg → HaState → SessionOutcome
  connected_session d seen chan st =
      let registered = register d seen.announced 0 devices st.status in
      let out =
        ha_rounds null_text shifted_out d seen.rounds (seen.others chan)
          (record st { status = registered.1 }) in
      record {
        ended = not out.active;
        device = d;
        sent = registered.0 ++ out.sent;
        state = out.state;
        chan = out.chan;
      }

  unfoldable pub ha_session : SessionSeen → Device → OutputsMsg → HaState → SessionOutcome
  ha_session seen d chan st =
      let d' = (ha_mqtt_init is_ipv4 is_ipv6 seen.hw_id seen.iface d).1 in
      let waited = wait_connected seen.waits st.status in
      let st' : HaState = record st { status = waited.1 } in
      if waited.0
      then connected_session d' seen chan st'
      else record { ended = false; device = d'; sent = []; state = st'; chan = chan }

  -- Some passes, up to one that has not ended.
  unfoldable pub ha_sessions : List SessionSeen → Device → OutputsMsg → HaState → SessionOutcome
  ha_sessions [] d chan st = record { ended = true; device = d; sent = []; state = st; chan = chan }
  ha_sessions (seen ∷ rest) d chan st =
      let here = ha_session seen d chan st in
      let later = ha_sessions rest here.device here.chan here.state in
      if here.ended then record later { sent = here.sent ++ later.sent } else here
