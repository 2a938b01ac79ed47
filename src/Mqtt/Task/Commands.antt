-- ===== src/Mqtt/Task/Commands.antt =====
-- From a command on MQTT through `ha_mqtt_task` (src/mqtt/ha_task.c) and the outputs channel to the
-- pins of `io_task` (src/io/io.c).
use cedar_switch_3i3o_power.Common.{
  ℕ, ◌+◌, ◌%◌, ◌^◌, ◌≤◌, ◌<◌, ◌≡◌, refl, ◌∙◌, ap, inl, inr, Bool, true, ◌&&◌, some, [], Bool-cases,
  length, arith,
}
use cedar_switch_3i3o_power.Common.CString.{Bytes}
use cedar_switch_3i3o_power.Bus.{OutputsMsg, RelaysDefState, chan_read}
use cedar_switch_3i3o_power.Io.Task.{write_relays_once, IoState, Seen, io_round}
use cedar_switch_3i3o_power.Io.Safety.{IsApplied, io_round_enabled, io_round_disabled}
use cedar_switch_3i3o_power.Mqtt.Queue.{MqttMsg}
use cedar_switch_3i3o_power.Mqtt.Device.{output_device, Device}
use cedar_switch_3i3o_power.Mqtt.Topics.{generate_command_topik}
use cedar_switch_3i3o_power.Mqtt.Incoming.{Command}
use cedar_switch_3i3o_power.Mqtt.Incoming.Commands.{NoSlash}
use cedar_switch_3i3o_power.Mqtt.Incoming.RoundTrip.{
  command_payload, command_state, command_round_trip,
}
use cedar_switch_3i3o_power.Mqtt.Task.{
  HaState, report_inputs, handle_message, handle_incoming, TaskRound, connected_round, ha_round,
  set_relay,
}
use cedar_switch_3i3o_power.Mqtt.Task.Bits.{with_relay, write_relays_once-set_relay}

-- A message that switches relay `number` of the device.
abbrev pub IsCommand : Device → ℕ → Bool → MqttMsg → Type 0
IsCommand d number on msg =
    (msg.topic ≡ (generate_command_topik d 128 output_device number []).1)
    × (msg.payload ≡ command_payload on)

module _ (shifted_out : ℕ → ℕ) where
  handle_message_command :
      (d : Device) (number : ℕ) (on : Bool) (msg : MqttMsg) (unset : Command)
      (outputs chan : OutputsMsg)
      → IsCommand d number on msg
      → length d.identifier ≤ 31
      → NoSlash d.identifier
      → number ≤ 3
      → (handle_message shifted_out unset true msg outputs chan).1 ≡ record {
        seq = (outputs.seq + 1) % 2 ^ 32;
        state = set_relay shifted_out number (command_state on) outputs.state;
      }
  unfolding handle_message
  handle_message_command d number on msg unset outputs chan (topic, payload) fits id h =
      rw (topic, payload, command_round_trip d number on [] unset fits id (omega arith)) refl

-- A round of `io_task` that reads both channels while the client is connected shows the message.
io_round_connected :
    (def : RelaysDefState) (seen : Seen) (io : IoState)
    → IsApplied io
    → seen.got_outputs ≡ true
    → seen.got_status ≡ true
    → seen.status.connected ≡ true
    → (io_round def seen io).pins ≡ write_relays_once seen.outputs.state
io_round_connected def seen io h got gots connected =
    elim (Bool-cases (io.mqtt_status_msg.enabled && def.enabled)) [
      | inl on ↦
          io_round_enabled def seen io h (ground arith) (ground arith) got gots
          ∙ rw (connected) refl
      | inr off ↦ io_round_disabled def seen io h off got
    ]

module _ (null_text : Bytes) (shifted_out : ℕ → ℕ) where
  chan-ha_round :
      (d : Device) (r : TaskRound) (msg : MqttMsg) (chan : OutputsMsg) (st : HaState)
      → (chan_read r.got_status r.status st.status).connected ≡ true
      → r.incoming ≡ some msg
      → (ha_round null_text shifted_out d r chan st).chan
        ≡ r.others (handle_message shifted_out r.unset r.got_pub msg st.outputs.current chan).1
  unfolding ha_round connected_round handle_incoming report_inputs
  chan-ha_round d r msg chan st connected incoming = rw (connected, incoming) refl

  -- Where the client is connected, a command for one of the three relays that a round takes from the
  -- queue and publishes, with no other publication before the relay task reads the channel, makes
  -- that task set the relay's pin as the command says; the other two pins are the relays that the
  -- round began with, as the task had read them, whatever the channel held since.
  pub command_drives_pins :
      (d : Device) (r : TaskRound) (number : ℕ) (on : Bool) (msg : MqttMsg) (chan : OutputsMsg)
      (st : HaState) (def : RelaysDefState) (seen : Seen) (io : IoState)
      → length d.identifier ≤ 31
      → NoSlash d.identifier
      → 1 ≤ number
      → number ≤ 3
      → st.outputs.current.state < 256
      → (chan_read r.got_status r.status st.status).connected ≡ true
      → IsCommand d number on msg
      → r.incoming ≡ some msg
      → r.got_pub ≡ true
      → ((c : OutputsMsg) → r.others c ≡ c)
      → IsApplied io
      → seen.got_outputs ≡ true
      → seen.got_status ≡ true
      → seen.status.connected ≡ true
      → seen.outputs ≡ (ha_round null_text shifted_out d r chan st).chan
      → (io_round def seen io).pins
        ≡ with_relay number on (write_relays_once st.outputs.current.state)
  command_drives_pins d r number on msg chan st def seen io fits id low high w connected command
        incoming got alone applied gots gott up read =
      let old = st.outputs.current in
      let handled : (handle_message shifted_out r.unset r.got_pub msg old chan).1.state
          ≡ set_relay shifted_out number (command_state on) old.state =
        rw (got) (
          ap (λ c. c.state)
            (handle_message_command shifted_out d number on msg r.unset old chan command fits id
              high)) in
      let state : seen.outputs.state ≡ set_relay shifted_out number (command_state on) old.state =
        ap (λ c. c.state) (read ∙ chan-ha_round d r _ chan st connected incoming ∙ alone _)
        ∙ handled in
      io_round_connected def seen io applied gots gott up
      ∙ ap (write_relays_once) state
      ∙ write_relays_once-set_relay shifted_out number on old.state low high w
