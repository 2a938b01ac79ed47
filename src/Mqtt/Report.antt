-- ===== src/Mqtt/Report.antt =====
-- src/mqtt/ha_task.c: the reports of the inputs and of the relays, on a change and when they are due.
pub mod Shown
pub mod Loop
pub mod Due
use cedar_switch_3i3o_power.Common.{
  ℕ, zero, suc, ◌+◌, ◌-◌, ◌/◌, ◌%◌, ◌^◌, Bool, true, false, not, ◌&&◌, ◌||◌, Option, none, some,
  List, [], ◌∷◌, ◌++◌, ◌==◌, ltb, if◌then◌else◌, is_zero,
}
use cedar_switch_3i3o_power.Common.CString.{Bytes}
use cedar_switch_3i3o_power.Bus.{OutputsMsg, MqttStatus, chan_read, chan_pub}
use cedar_switch_3i3o_power.Mqtt.Queue.{MqttMsg}
use cedar_switch_3i3o_power.Mqtt.Device.{DevType, input_sensor, output_device, Device}
use cedar_switch_3i3o_power.Mqtt.Topics.{get_status_topik_string, get_config_topik_string}
use cedar_switch_3i3o_power.Mqtt.Payloads.{
  get_config_payload_string, generate_sensor_status_payload,
}
use cedar_switch_3i3o_power.Mqtt.Incoming.{Command, parse_incoming_message}

-- UPDATE_PERIOD_SEC
abbrev pub update_period_sec : ℕ
update_period_sec = 600 - 100

abbrev pub devices : List (DevType × ℕ)
devices =
    (input_sensor, 1)
    ∷ (input_sensor, 2)
    ∷ (input_sensor, 3)
    ∷ (output_device, 1)
    ∷ (output_device, 2)
    ∷ (output_device, 3)
    ∷ []

unfoldable pub get_bit : ℕ → ℕ → ℕ
get_bit state index = state / 2 ^ index % 2

-- device[i].type == INPUT_SENSOR, device[i].type == OUTPUT_DEVICE
abbrev pub is_input : DevType → Bool
is_input input_sensor = true
is_input other = false

abbrev pub is_output : DevType → Bool
is_output output_device = true
is_output other = false

-- The variables for one channel: the message that was read last, the one that was reported last,
-- and when the next full report is due.
pub record Watch : Type 0 where
  pub current : OutputsMsg
  pub old : OutputsMsg
  pub next_update : ℕ

-- The initial values of the variables.
abbrev pub watch_init : Watch
watch_init = record {
  current = record { seq = 0; state = 0 };
  old = record { seq = 0; state = 255 };
  next_update = 0;
}

-- `null_text` is what "%s" prints for NULL.
module _ (null_text : Bytes) where
  unfoldable pub status_message : Device → DevType → ℕ → ℕ → MqttMsg
  status_message d dev_type index state = record {
    topic = (get_status_topik_string d 128 dev_type index).1;
    payload =
        (generate_sensor_status_payload null_text 700 dev_type index (get_bit state (index - 1))).1;
    qos = 1;
    retain = false;
  }

  -- The loop over the devices of one type: those whose bit has changed.
  unfoldable pub report : Device → (DevType → Bool) → ℕ → ℕ → List (DevType × ℕ) → List MqttMsg
  report d of_type state old [] = []
  report d of_type state old ((dev_type, index) ∷ rest) =
      let later = report d of_type state old rest in
      if of_type dev_type && not (get_bit state (index - 1) == get_bit old (index - 1))
      then status_message d dev_type index state ∷ later
      else later

  -- `~state` is stored in 8 bits, `now` has 32.
  unfoldable pub report_changes : Device → (DevType → Bool) → ℕ → Watch → List MqttMsg × Watch
  report_changes d of_type now w =
      let due = ltb w.next_update now in
      let old : OutputsMsg =
        if due then record w.old { state = 255 - w.current.state % 256 } else w.old in
      let next = if due then (now + update_period_sec) % 2 ^ 32 else w.next_update in
      if w.current.state == old.state then ([], record w { old = old; next_update = next }) else (
        report d of_type w.current.state old.state devices,
        record w { old = w.current; next_update = next },
      )
