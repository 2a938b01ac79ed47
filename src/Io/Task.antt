-- ===== src/Io/Task.antt =====
-- src/io/io.c: `write_relays_once` and `io_task`. A round of the task's loop, which runs four
-- times a second, is one step; what the other threads do between rounds shows in the channels'
-- contents.
use cedar_switch_3i3o_power.Common.{
  ℕ, Bool, false, not, ◌||◌, Option, none, some, List, [], ◌∷◌, ◌==◌, if◌then◌else◌,
}
use cedar_switch_3i3o_power.Bus.{
  OutputsMsg, MqttStatus, RelaysDefState, chan_read, pack_relays, has_bit,
}
use cedar_switch_3i3o_power.Settings.{Settings}

-- The levels of the three GPIO pins.
pub record Pins : Type 0 where
  pub relay1 : Bool
  pub relay2 : Bool
  pub relay3 : Bool

unfoldable pub write_relays_once : ℕ → Pins
unfolding has_bit
write_relays_once state = record {
  relay1 = has_bit state 1;
  relay2 = has_bit state 2;
  relay3 = has_bit state 4;
}

-- The task's local variables, and the pins.
pub record IoState : Type 0 where
  pub applied_state : ℕ
  pub mqtt_status_msg : MqttStatus
  pub pins : Pins

-- What a round finds: whether it gets the two channels, and what they hold.
pub record Seen : Type 0 where
  pub got_outputs : Bool
  pub outputs : OutputsMsg
  pub got_status : Bool
  pub status : MqttStatus

-- Before the loop: `none` is the early return, where one of the ports is not ready. Otherwise the
-- relays are off, and `enabled` is loaded from the settings. The variable is `{ false }`; a failed
-- load leaves in it what `load` says.
unfoldable pub io_task_init :
    (st : Settings (Unit {0}) (λ k. Bool)) → Bool → st.Store → Option IoState
unfolding write_relays_once
io_task_init st ready s =
    if not ready
    then none
    else some (record {
      applied_state = 0;
      mqtt_status_msg = record { seq = 0; enabled = (st.load tt false s).1; connected = false };
      pins = write_relays_once 0;
    })

-- if (msg.state != applied_state) { … }
unfoldable pub apply : ℕ → IoState → IoState
unfolding write_relays_once
apply state io =
    if state == io.applied_state
    then io
    else record io { applied_state = state; pins = write_relays_once state }

abbrev pub safe_state : RelaysDefState → ℕ
safe_state def = pack_relays def.relay1 def.relay2 def.relay3

-- A round in which the outputs channel was read.
unfoldable pub io_message : RelaysDefState → Seen → ℕ → IoState → IoState
io_message def seen state io =
    if not io.mqtt_status_msg.enabled || not def.enabled
    then apply state io
    else let status = chan_read seen.got_status seen.status io.mqtt_status_msg in
      let io' : IoState = record io { mqtt_status_msg = status } in
      if not status.connected then apply (safe_state def) io' else apply state io'

unfoldable pub io_round : RelaysDefState → Seen → IoState → IoState
unfolding io_message
io_round def seen io = if seen.got_outputs then io_message def seen seen.outputs.state io else io

unfoldable pub io_rounds : RelaysDefState → List Seen → IoState → IoState
unfolding io_round
io_rounds def [] io = io
io_rounds def (seen ∷ rest) io = io_rounds def rest (io_round def seen io)
