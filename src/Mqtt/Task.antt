-- ===== src/Mqtt/Task.antt =====
-- src/mqtt/ha_task.c: `ha_mqtt_task`, which announces the device, reports its inputs and relays and
-- carries out commands. A round of the inner loop is one step; what the other threads do meanwhile
-- is what the round sees.
pub mod Bits
pub mod Commands
pub mod Reports
pub mod Shown
pub mod Registration
pub mod Room
pub mod Heartbeat
pub mod Session
pub mod Informed
pub mod Lasting
pub mod Pass
use Prim.Native.Nat.{bit_and, bit_or}
use cedar_switch_3i3o_power.Common.{
  ℕ, zero, suc, ◌+◌, ◌-◌, ◌/◌, ◌%◌, ◌^◌, Bool, true, false, not, ◌&&◌, ◌||◌, Option, none, some,
  List, [], ◌∷◌, ◌++◌, ◌==◌, ltb, if◌then◌else◌, is_zero,
}
use cedar_switch_3i3o_power.Common.CString.{Bytes}
use cedar_switch_3i3o_power.Bus.{OutputsMsg, MqttStatus, chan_read, chan_pub}
use cedar_switch_3i3o_power.Mqtt.Queue.{MqttMsg}
use cedar_switch_3i3o_power.Mqtt.Device.{DevType, input_sensor, output_device, Device}
use cedar_switch_3i3o_power.Mqtt.Topics.{get_status_topik_string, get_config_topik_string}
use cedar_switch_3i3o_power.Mqtt.Payloads.{
  get_config_payload_string, generate_sensor_status_payload,
}
use cedar_switch_3i3o_power.Mqtt.Incoming.{Command, parse_incoming_message}
use cedar_switch_3i3o_power.Mqtt.Report.{
  devices, get_bit, is_input, is_output, Watch, status_message, report, report_changes,
}

pub record HaState : Type 0 where
  pub status : MqttStatus
  pub inputs : Watch
  pub outputs : Watch

-- `null_text` is what "%s" prints for NULL.
module _ (null_text : Bytes) where
  unfoldable pub report_inputs : Device → ℕ → Bool → OutputsMsg → HaState → List MqttMsg × HaState
  report_inputs d now got chan st =
      let w : Watch = record st.inputs { current = chan_read got chan st.inputs.current } in
      let reported = report_changes null_text d is_input now w in
      (reported.0, record st { inputs = reported.1 })

  unfoldable pub report_outputs : Device → ℕ → Bool → OutputsMsg → HaState → List MqttMsg × HaState
  report_outputs d now got chan st =
      let w : Watch = record st.outputs { current = chan_read got chan st.outputs.current } in
      let reported = report_changes null_text d is_output now w in
      (reported.0, record st { outputs = reported.1 })

-- `shifted_out` gives the value of the shift 1u << (n - 1) where the language leaves it undefined.
module _ (shifted_out : ℕ → ℕ) where
  -- uint8_t mask = 1u << (n - 1), where n has 8 bits
  unfoldable pub relay_mask : ℕ → ℕ
  relay_mask n = (if n == 0 || ltb 32 n then shifted_out n else 2 ^ (n - 1)) % 256

  unfoldable pub set_relay : ℕ → ℕ → ℕ → ℕ
  set_relay n on state =
      if on == 0 then bit_and state (255 - relay_mask n) else bit_or state (relay_mask n)

  -- A message of the queue: the task's variable and the outputs channel afterwards. `unset` is what
  -- the variables hold before the parser writes them.
  unfoldable pub handle_message :
      Command → Bool → MqttMsg → OutputsMsg → OutputsMsg → OutputsMsg × OutputsMsg
  handle_message unset got msg outputs chan =
      let parsed = parse_incoming_message msg.payload msg.topic unset in
      let changed : OutputsMsg = record {
        seq = (outputs.seq + 1) % 2 ^ 32;
        state = set_relay parsed.1.sensor_number parsed.1.state_num outputs.state;
      } in
      if not (is_zero parsed.0)
      then (outputs, chan)
      else if is_output parsed.1.dev_type
      then (changed, chan_pub got changed chan)
      else (outputs, chan)

  unfoldable pub handle_incoming :
      Command → Bool → Option MqttMsg → OutputsMsg → OutputsMsg → OutputsMsg × OutputsMsg
  handle_incoming unset got none outputs chan = (outputs, chan)
  handle_incoming unset got (some msg) outputs chan = handle_message unset got msg outputs chan

-- What a round finds. `others` is what the other threads do to the outputs channel between the
-- command and the read.
pub record TaskRound : Type 0 where
  pub now : ℕ
  pub got_status : Bool
  pub status : MqttStatus
  pub got_inputs : Bool
  pub inputs : OutputsMsg
  pub incoming : Option MqttMsg
  pub unset : Command
  pub got_pub : Bool
  pub others : OutputsMsg → OutputsMsg
  pub got_outputs : Bool

-- Whether the loop goes on, what was put into the queue of outgoing messages, the variables and
-- the outputs channel. The calls that put a message wait for room (Mqtt.Task.Room); an outcome is that
-- of a round whose calls have returned.
pub record Outcome : Type 0 where
  pub active : Bool
  pub sent : List MqttMsg
  pub state : HaState
  pub chan : OutputsMsg

module _ (null_text : Bytes) (shifted_out : ℕ → ℕ) where
  -- A round after the test of the connection.
  unfoldable pub connected_round : Device → TaskRound → OutputsMsg → HaState → Outcome
  connected_round d r chan st =
      let first = report_inputs null_text d r.now r.got_inputs r.inputs st in
      let command =
        handle_incoming shifted_out r.unset r.got_pub r.incoming first.1.outputs.current chan in
      let after : HaState = record first.1 {
        outputs = record first.1.outputs { current = command.0 };
      } in
      let chan' = r.others command.1 in
      let second = report_outputs null_text d r.now r.got_outputs chan' after in
      record { active = true; sent = first.0 ++ second.0; state = second.1; chan = chan' }

  unfoldable pub ha_round : Device → TaskRound → OutputsMsg → HaState → Outcome
  ha_round d r chan st =
      let st' : HaState = record st { status = chan_read r.got_status r.status st.status } in
      if not st'.status.connected
      then record { active = false; sent = []; state = st'; chan = chan }
      else connected_round d r chan st'

  -- The inner loop, up to the round that finds the connection lost.
  unfoldable pub ha_rounds : Device → List TaskRound → OutputsMsg → HaState → Outcome
  ha_rounds d [] chan st = record { active = true; sent = []; state = st; chan = chan }
  ha_rounds d (r ∷ rest) chan st =
      let here = ha_round d r chan st in
      let later = ha_rounds d rest here.chan here.state in
      if here.active then record later { sent = here.sent ++ later.sent } else here

-- The loop that announces the devices. `seen i` is what the read of the status finds after the
-- device at `i`.
unfoldable pub config_message : Device → DevType × ℕ → MqttMsg
config_message d (dev_type, index) = record {
  topic = (get_config_topik_string d 128 dev_type index).1;
  payload = (get_config_payload_string d 700 dev_type index).1;
  qos = 1;
  retain = true;
}

unfoldable pub register :
    Device
    → (ℕ → Bool × MqttStatus)
    → ℕ
    → List (DevType × ℕ)
    → MqttStatus
    → List MqttMsg × MqttStatus
register d seen i [] status = ([], status)
register d seen i (device ∷ rest) status =
    let status' = chan_read (seen i).0 (seen i).1 status in
    let later = register d seen (suc i) rest status' in
    if status'.connected
    then (config_message d device ∷ later.0, later.1)
    else (config_message d device ∷ [], status')
