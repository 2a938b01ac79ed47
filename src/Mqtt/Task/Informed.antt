-- ===== src/Mqtt/Task/Informed.antt =====
-- The reports of `ha_mqtt_task` (src/mqtt/ha_task.c) keep a reader informed over all connections.
use cedar_switch_3i3o_power.Common.{
  ℕ, suc, ◌≡◌, refl, ◌∙◌, sym, ap, inl, inr, Bool, true, false, List, [], ◌∷◌, ◌++◌, Bool-cases,
}
use cedar_switch_3i3o_power.Common.CString.{Bytes, bytes_eq}
use cedar_switch_3i3o_power.Bus.{MqttStatus, chan_read}
use cedar_switch_3i3o_power.Mqtt.Queue.{MqttMsg}
use cedar_switch_3i3o_power.Mqtt.Device.{
  DevType, input_sensor, output_device, energy_sensor, power_sensor, voltage_sensor,
  power_factor_sensor, current_sensor, apparent_power_sensor, voltage_diagnostic_batt_sensor,
  voltage_diagnostic_pow_supl_sensor, Device,
}
use cedar_switch_3i3o_power.Mqtt.Topics.{
  get_status_topik_string, get_config_topik_string, topic_base,
}
use cedar_switch_3i3o_power.Mqtt.Topics.Shape.{status_topic}
use cedar_switch_3i3o_power.Mqtt.Report.{devices, status_message}
use cedar_switch_3i3o_power.Mqtt.Report.Loop.{shown, shown-append, payload}
use cedar_switch_3i3o_power.Mqtt.Task.Shown.{IsShown, after}
use cedar_switch_3i3o_power.Mqtt.Task.{HaState, config_message, register}

-- An announcement is on no status topic.
config_not_status :
    (d e : Device) (relay : Bool) (number : ℕ) (dev_type : DevType) (index : ℕ)
    → bytes_eq (status_topic e relay number) (config_message d (dev_type, index)).topic ≡ false
unfolding get_status_topik_string get_config_topik_string topic_base config_message bytes_eq
config_not_status d e true number input_sensor index = refl
config_not_status d e true number output_device index = refl
config_not_status d e true number energy_sensor index = refl
config_not_status d e true number power_sensor index = refl
config_not_status d e true number voltage_sensor index = refl
config_not_status d e true number power_factor_sensor index = refl
config_not_status d e true number current_sensor index = refl
config_not_status d e true number apparent_power_sensor index = refl
config_not_status d e true number voltage_diagnostic_batt_sensor index = refl
config_not_status d e true number voltage_diagnostic_pow_supl_sensor index = refl
config_not_status d e false number input_sensor index = refl
config_not_status d e false number output_device index = refl
config_not_status d e false number energy_sensor index = refl
config_not_status d e false number power_sensor index = refl
config_not_status d e false number voltage_sensor index = refl
config_not_status d e false number power_factor_sensor index = refl
config_not_status d e false number current_sensor index = refl
config_not_status d e false number apparent_power_sensor index = refl
config_not_status d e false number voltage_diagnostic_batt_sensor index = refl
config_not_status d e false number voltage_diagnostic_pow_supl_sensor index = refl

shown-skip :
    (topic : Bytes) (msg : MqttMsg) (rest : List MqttMsg) (before : Bytes)
    → bytes_eq topic msg.topic ≡ false
    → shown topic (msg ∷ rest) before ≡ shown topic rest before
unfolding shown
shown-skip topic msg rest before other = rw (other) refl

pub shown_nil : (topic before : Bytes) → shown topic [] before ≡ before
unfolding shown
shown_nil topic before = refl

-- The announcements change nothing on the status topics.
shown-register :
    (d e : Device) (relay : Bool) (number : ℕ) (seen : ℕ → Bool × MqttStatus) (i : ℕ)
    (ds : List (DevType × ℕ)) (status : MqttStatus) (before : Bytes)
    → shown (status_topic e relay number) (register d seen i ds status).0 before ≡ before
unfolding register
shown-register d e relay number seen i [] status before = shown_nil _ before
shown-register d e relay number seen i ((dev_type, index) ∷ rest) status before =
    let status' = chan_read (seen i).0 (seen i).1 status in
    let other = config_not_status d e relay number dev_type index in
    elim (Bool-cases status'.connected) [
      | inl up ↦ rw (up) (
          shown-skip (status_topic e relay number) (config_message d (dev_type, index)) _ before
            other
          ∙ shown-register d e relay number seen (suc i) rest status' before)
      | inr down ↦ rw (down) (
          shown-skip (status_topic e relay number) (config_message d (dev_type, index)) [] before
            other
          ∙ shown_nil _ before)
    ]

-- A device with this identifier.
abbrev pub named : Bytes → Device
named identifier = record { identifier = identifier; conf_ip = [] }

-- The status topics are up to the identifier alone.
status_topic_named :
    (d : Device) (relay : Bool) (number : ℕ)
    → status_topic d relay number ≡ status_topic (named d.identifier) relay number
unfolding get_status_topik_string topic_base
status_topic_named d true number = refl
status_topic_named d false number = refl

module _ (null_text : Bytes) (shifted_out : ℕ → ℕ) where
  payload_named :
      (d e : Device) (relay : Bool) (number state : ℕ)
      → payload null_text d relay number state ≡ payload null_text e relay number state
  unfolding status_message
  payload_named d e relay number state = refl

  -- What a reader knows is up to the identifier alone.
  pub IsShown-named :
      (d : Device) (view : Bytes → Bytes) (st : HaState)
      → IsShown null_text shifted_out d view st
      → IsShown null_text shifted_out (named d.identifier) view st
  IsShown-named d view st known relay number l h =
      ap view (sym (status_topic_named d relay number))
      ∙ known relay number l h
      ∙ payload_named d (named d.identifier) relay number _

  pub named-IsShown :
      (d : Device) (view : Bytes → Bytes) (st : HaState)
      → IsShown null_text shifted_out (named d.identifier) view st
      → IsShown null_text shifted_out d view st
  named-IsShown d view st known relay number l h =
      ap view (status_topic_named d relay number)
      ∙ known relay number l h
      ∙ payload_named (named d.identifier) d relay number _

  -- The inner loop, after the announcements.
  pub announced-IsShown :
      (d : Device) (seen : ℕ → Bool × MqttStatus) (status : MqttStatus) (sent : List MqttMsg)
      (view : Bytes → Bytes) (st : HaState)
      → IsShown null_text shifted_out d (after null_text shifted_out d sent view) st
      → IsShown null_text shifted_out d
          (after null_text shifted_out d ((register d seen 0 devices status).0 ++ sent) view)
          st
  announced-IsShown d seen status sent view st known relay number l h =
      shown-append (status_topic d relay number) (register d seen 0 devices status).0 sent _
      ∙ ap (shown (status_topic d relay number) sent)
          (shown-register d d relay number seen 0 devices status _)
      ∙ known relay number l h
