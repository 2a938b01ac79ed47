-- ===== src/Mqtt/Task/Room.antt =====
-- The calls k_msgq_put with K_FOREVER of `ha_mqtt_task` (src/mqtt/ha_task.c), on the queue MQTT_MSGQ_TX
-- of src/msgq_topiks.c.
use mathlib.Core.List.{append_assoc, append-nil}
use cedar_switch_3i3o_power.Common.{
  ℕ, ◌+◌, ◌-◌, ◌%◌, ◌≤◌, ◌≡◌, ◌∙◌, sym, ap, inl, inr, Bool, true, false, Option, none, some, List,
  [], ◌∷◌, ◌++◌, ltb, if◌then◌else◌, Bool-cases, arith, length, length-append,
}
use cedar_switch_3i3o_power.Common.CString.{Bytes}
use cedar_switch_3i3o_power.Bus.{OutputsMsg, chan_read}
use cedar_switch_3i3o_power.Mqtt.Queue.{MqttMsg}
use cedar_switch_3i3o_power.Mqtt.Device.{Device}
use cedar_switch_3i3o_power.Mqtt.Report.{devices, Watch, report, report_changes}
use cedar_switch_3i3o_power.Mqtt.Report.Loop.{of_type}
use cedar_switch_3i3o_power.Mqtt.Task.{
  HaState, report_inputs, report_outputs, TaskRound, connected_round, ha_round,
}

abbrev pub tx_queue_size : ℕ
tx_queue_size = 16

-- k_msgq_put(&MQTT_MSGQ_TX, …, K_FOREVER) for some messages, while nobody takes one from the queue:
-- `none` is a call that waits for room.
unfoldable pub put_forever : List MqttMsg → List MqttMsg → Option (List MqttMsg)
put_forever [] queue = some queue
put_forever (msg ∷ msgs) queue =
    let later = put_forever msgs (queue ++ msg ∷ []) in
    if ltb (length queue) tx_queue_size then later else none

pub put_forever_room :
    (msgs queue : List MqttMsg)
    → length queue + length msgs ≤ 16
    → put_forever msgs queue ≡ some (queue ++ msgs)
unfolding put_forever
put_forever_room [] queue room = ap some (sym (append-nil queue))
put_forever_room (msg ∷ msgs) queue room =
    let open_queue : ltb (length queue) 16 ≡ true = ground arith in
    rw (open_queue) (
      put_forever_room msgs (queue ++ msg ∷ []) (omega (arith, length-append queue (msg ∷ [])))
      ∙ ap some (append_assoc queue (msg ∷ []) msgs))

module _ (null_text : Bytes) (shifted_out : ℕ → ℕ) (d : Device) where
  length-report :
      (relay : Bool) (state old : ℕ)
      → length (report null_text d (of_type relay) state old devices) ≤ 3
  unfolding report
  length-report true state old = ground arith
  length-report false state old = ground arith

  length-report_changes :
      (relay : Bool) (now : ℕ) (w : Watch)
      → length (report_changes null_text d (of_type relay) now w).0 ≤ 3
  unfolding report_changes
  length-report_changes relay now w = ground (
    arith,
    length-report relay w.current.state (255 - w.current.state % 256),
    length-report relay w.current.state w.old.state,
  )

  length-both : (ms ns : List MqttMsg) → length ms ≤ 3 → length ns ≤ 3 → length (ms ++ ns) ≤ 6
  length-both ms ns h k = omega (arith, length-append ms ns)

  -- A round puts at most six messages.
  pub length-ha_round :
      (r : TaskRound) (chan : OutputsMsg) (st : HaState)
      → length (ha_round null_text shifted_out d r chan st).sent ≤ 6
  unfolding ha_round connected_round report_inputs report_outputs
  length-ha_round r chan st =
      elim (Bool-cases (chan_read r.got_status r.status st.status).connected) [
        | inr down ↦ rw (down) (omega arith)
        | inl up ↦ rw (up) (
            length-both _ _ (length-report_changes false r.now _)
              (length-report_changes true r.now _))
      ]
