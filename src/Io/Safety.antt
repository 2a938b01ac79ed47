-- ===== src/Io/Safety.antt =====
-- Which relays `io_task` of src/io/io.c switches on.
use cedar_switch_3i3o_power.Common.{
  ℕ, ◌≡◌, ◌∙◌, Bool, true, false, some, ◌&&◌, List, [], ◌∷◌, ◌++◌, arith, if◌then◌else◌,
}
use cedar_switch_3i3o_power.Bus.{
  OutputsMsg, MqttStatus, RelaysDefState, chan_read, has_bit-pack_relays,
}
use cedar_switch_3i3o_power.Settings.{Settings}
use cedar_switch_3i3o_power.Io.Task.{
  Pins, write_relays_once, IoState, Seen, io_task_init, safe_state, apply, io_round, io_rounds,
}

-- The pins show the state that was applied last.
abbrev pub IsApplied : IoState → Type 0
IsApplied io = io.pins ≡ write_relays_once io.applied_state

apply-IsApplied : (state : ℕ) (io : IoState) → IsApplied io → IsApplied (apply state io)
unfolding apply
apply-IsApplied state io h = ground arith

-- The variable `mqtt_status_msg` after a round that reads the status.
abbrev read_status : Seen → IoState → MqttStatus
read_status seen io = chan_read seen.got_status seen.status io.mqtt_status_msg

io_round-IsApplied :
    (def : RelaysDefState) (seen : Seen) (io : IoState)
    → IsApplied io
    → IsApplied (io_round def seen io)
unfolding io_round
io_round-IsApplied def seen io h = ground (
  arith,
  apply-IsApplied (safe_state def) (record io { mqtt_status_msg = read_status seen io }) h,
  apply-IsApplied seen.outputs.state (record io { mqtt_status_msg = read_status seen io }) h,
  apply-IsApplied seen.outputs.state io h,
)

io_rounds-IsApplied :
    (def : RelaysDefState) (rounds : List Seen) (io : IoState)
    → IsApplied io
    → IsApplied (io_rounds def rounds io)
unfolding io_rounds
io_rounds-IsApplied def [] io h = h
io_rounds-IsApplied def (seen ∷ rest) io h =
    io_rounds-IsApplied def rest (io_round def seen io) (io_round-IsApplied def seen io h)

-- Whatever the task sees after its start, each pin is the bit of the state that was applied last.
io_task-IsApplied :
    (st : Settings (Unit {0}) (λ k. Bool)) (ready : Bool) (s : st.Store) (def : RelaysDefState)
    (rounds : List Seen) (io : IoState)
    → io_task_init st ready s ≡ some io
    → IsApplied (io_rounds def rounds io)
unfolding io_task_init
io_task-IsApplied st false s def rounds io started = cc
io_task-IsApplied st true s def rounds io started =
    let first : IsApplied io = cc in io_rounds-IsApplied def rounds io first

-- What the relays should show after a round that has read the outputs channel.
abbrev pub wanted : RelaysDefState → MqttStatus → OutputsMsg → Pins
wanted def status outputs =
    if status.connected
    then write_relays_once outputs.state
    else record { relay1 = def.relay1; relay2 = def.relay2; relay3 = def.relay3 }

pins-apply :
    (state : ℕ) (io : IoState) → IsApplied io → (apply state io).pins ≡ write_relays_once state
unfolding apply
pins-apply state io h = ground arith

pins-safe :
    (def : RelaysDefState)
    → write_relays_once (safe_state def)
      ≡ record { relay1 = def.relay1; relay2 = def.relay2; relay3 = def.relay3 }
unfolding write_relays_once
pins-safe def = let (r1, r2, r3, _) = has_bit-pack_relays def.relay1 def.relay2 def.relay3 in cc

-- While MQTT and the safe state are enabled, a round that reads both channels shows the message's
-- relays if the client is connected, and the safe state if it is not.
pub io_round_enabled :
    (def : RelaysDefState) (seen : Seen) (io : IoState)
    → IsApplied io
    → io.mqtt_status_msg.enabled ≡ true
    → def.enabled ≡ true
    → seen.got_outputs ≡ true
    → seen.got_status ≡ true
    → (io_round def seen io).pins ≡ wanted def seen.status seen.outputs
unfolding io_round
io_round_enabled def seen io h on def_on got gots = ground (
  arith,
  pins-safe def,
  pins-apply (safe_state def) (record io { mqtt_status_msg = read_status seen io }) h,
  pins-apply seen.outputs.state (record io { mqtt_status_msg = read_status seen io }) h,
)

-- While MQTT or the safe state is disabled, a round shows the message's relays, whatever the
-- connection is.
pub io_round_disabled :
    (def : RelaysDefState) (seen : Seen) (io : IoState)
    → IsApplied io
    → (io.mqtt_status_msg.enabled && def.enabled) ≡ false
    → seen.got_outputs ≡ true
    → (io_round def seen io).pins ≡ write_relays_once seen.outputs.state
unfolding io_round
io_round_disabled def seen io h off got = ground (arith, pins-apply seen.outputs.state io h)

-- The flag that the rounds test.
abbrev enabled_flag : IoState → Bool
enabled_flag io = io.mqtt_status_msg.enabled

mqtt-apply : (state : ℕ) (io : IoState) → (apply state io).mqtt_status_msg ≡ io.mqtt_status_msg
unfolding apply
mqtt-apply state io = ground arith

enabled-io_round_off :
    (def : RelaysDefState) (seen : Seen) (io : IoState)
    → enabled_flag io ≡ false
    → enabled_flag (io_round def seen io) ≡ false
unfolding io_round
enabled-io_round_off def seen io off = ground (arith, mqtt-apply seen.outputs.state io)

enabled-io_round_read :
    (def : RelaysDefState) (seen : Seen) (io : IoState)
    → enabled_flag io ≡ true
    → def.enabled ≡ true
    → seen.got_outputs ≡ true
    → seen.got_status ≡ true
    → enabled_flag (io_round def seen io) ≡ seen.status.enabled
unfolding io_round
enabled-io_round_read def seen io on def_on got gots = ground (
  arith,
  mqtt-apply (safe_state def) (record io { mqtt_status_msg = read_status seen io }),
  mqtt-apply seen.outputs.state (record io { mqtt_status_msg = read_status seen io }),
)

io_rounds_off :
    (def : RelaysDefState) (rounds : List Seen) (later : Seen) (io : IoState)
    → IsApplied io
    → enabled_flag io ≡ false
    → later.got_outputs ≡ true
    → (io_rounds def (rounds ++ later ∷ []) io).pins ≡ write_relays_once later.outputs.state
unfolding io_rounds
io_rounds_off def [] later io h off got = io_round_disabled def later io h (rw (off)) got
io_rounds_off def (seen ∷ rest) later io h off got =
    io_rounds_off def rest later (io_round def seen io) (io_round-IsApplied def seen io h)
      (enabled-io_round_off def seen io off) got

-- Once a round has read a status whose `enabled` is false, as the channel's initial value is, the
-- task keeps that flag: in every later round the relays follow the messages, also while the client
-- is disconnected, although the settings enable MQTT and the safe state.
pub io_rounds_latched :
    (def : RelaysDefState) (first later : Seen) (rounds : List Seen) (io : IoState)
    → IsApplied io
    → io.mqtt_status_msg.enabled ≡ true
    → def.enabled ≡ true
    → first.got_outputs ≡ true
    → first.got_status ≡ true
    → first.status.enabled ≡ false
    → later.got_outputs ≡ true
    → (io_rounds def (first ∷ rounds ++ later ∷ []) io).pins ≡ write_relays_once later.outputs.state
unfolding io_rounds
io_rounds_latched def first later rounds io h on def_on got gots off gotl =
    io_rounds_off def rounds later (io_round def first io) (io_round-IsApplied def first io h)
      (enabled-io_round_read def first io on def_on got gots ∙ off) gotl
