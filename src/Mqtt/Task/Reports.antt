-- ===== src/Mqtt/Task/Reports.antt =====
-- The reports of `ha_mqtt_task` (src/mqtt/ha_task.c) keep a reader informed.
use cedar_switch_3i3o_power.Common.{
  ℕ, ◌≤◌, ◌≡◌, inl, inr, Bool, true, false, List, [], ◌∷◌, Bool-cases, length, arith,
}
use cedar_switch_3i3o_power.Common.CString.{Bytes}
use cedar_switch_3i3o_power.Bus.{OutputsMsg, chan_read}
use cedar_switch_3i3o_power.Mqtt.Device.{Device}
use cedar_switch_3i3o_power.Mqtt.Report.{Watch, report_changes}
use cedar_switch_3i3o_power.Mqtt.Report.Loop.{of_type}
use cedar_switch_3i3o_power.Mqtt.Task.{
  HaState, report_inputs, report_outputs, TaskRound, connected_round, ha_round, ha_rounds,
}
use cedar_switch_3i3o_power.Mqtt.Task.Shown.{
  watch, IsShown, after, IsDue, connected_round-IsShown, after-append, ha_rounds-IsShown,
}

module _ (null_text : Bytes) (shifted_out : ℕ → ℕ) (d : Device) where
  -- The states that the task has reported last are those it has read last.
  abbrev pub IsReported : HaState → Type 0
  IsReported st = (relay : Bool) → (watch relay st).old.state ≡ (watch relay st).current.state

  old-report_changes :
      (relay : Bool) (now : ℕ) (w : Watch)
      → (report_changes null_text d (of_type relay) now w).1.old.state
        ≡ (report_changes null_text d (of_type relay) now w).1.current.state
  unfolding report_changes
  old-report_changes relay now w = ground arith

  connected_round-IsReported :
      (r : TaskRound) (chan : OutputsMsg) (st : HaState)
      → IsReported (connected_round null_text shifted_out d r chan st).state
  unfolding connected_round report_inputs report_outputs
  connected_round-IsReported r chan st true = old-report_changes true r.now _
  connected_round-IsReported r chan st false = old-report_changes false r.now _

  pub ha_rounds-IsReported :
      (rounds : List TaskRound) (chan : OutputsMsg) (st : HaState)
      → IsReported st
      → IsReported (ha_rounds null_text shifted_out d rounds chan st).state
  unfolding ha_rounds ha_round connected_round
  ha_rounds-IsReported [] chan st h = h
  ha_rounds-IsReported (r ∷ rest) chan st h =
      let st' : HaState = record st { status = chan_read r.got_status r.status st.status } in
      let here = connected_round null_text shifted_out d r chan st' in
      elim (Bool-cases st'.status.connected) [
        | inl up ↦
            rw (up) (
              ha_rounds-IsReported rest here.chan here.state
                (connected_round-IsReported r chan st'))
        | inr down ↦ rw (down) h
      ]

  -- After a first round that finds the client connected and both reports due, as it does after null_text shifted_out d the
  -- start, however many rounds follow and whatever they find, the last payload on each of the six
  -- status topics is that of the state the task has reported last, and that is the state it has read
  -- last, where the identifier has at most 31 characters.
  pub ha_rounds_informs :
      (first : TaskRound) (rounds : List TaskRound) (chan : OutputsMsg) (st : HaState)
      (view : Bytes → Bytes)
      → length d.identifier ≤ 31
      → (chan_read first.got_status first.status st.status).connected ≡ true
      → IsDue null_text shifted_out d first.now st
      → IsShown null_text shifted_out d
          (after null_text shifted_out d
            (ha_rounds null_text shifted_out d (first ∷ rounds) chan st).sent
            view)
          (ha_rounds null_text shifted_out d (first ∷ rounds) chan st).state
        × IsReported (ha_rounds null_text shifted_out d (first ∷ rounds) chan st).state
  unfolding ha_rounds ha_round connected_round
  ha_rounds_informs first rounds chan st view id up due =
      let st' : HaState = record st {
        status = chan_read first.got_status first.status st.status;
      } in
      let here = connected_round null_text shifted_out d first chan st' in
      let later = ha_rounds null_text shifted_out d rounds here.chan here.state in
      rw (up) (
        after-append null_text shifted_out d here.sent later.sent view later.state (
            ha_rounds-IsShown null_text shifted_out d rounds here.chan here.state
              (after null_text shifted_out d here.sent view) id
              (connected_round-IsShown null_text shifted_out d first chan st' view id (inr due))),
        ha_rounds-IsReported rounds here.chan here.state
            (connected_round-IsReported first chan st'),
      )
