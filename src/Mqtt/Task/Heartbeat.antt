-- ===== src/Mqtt/Task/Heartbeat.antt =====
-- `ha_mqtt_task` (src/mqtt/ha_task.c) reports every device again and again while it is connected.
use cedar_switch_3i3o_power.Common.{ℕ, ◌≤◌}
use cedar_switch_3i3o_power.Common.CString.{Bytes}
use cedar_switch_3i3o_power.Mqtt.Device.{Device}
use cedar_switch_3i3o_power.Mqtt.Task.{HaState}

module _ (null_text : Bytes) (shifted_out : ℕ → ℕ) (d : Device) where
  -- Both full reports come at that time at the latest.
  abbrev pub NextBy : ℕ → HaState → Type 0
  NextBy time st = (st.inputs.next_update ≤ time) × (st.outputs.next_update ≤ time)
