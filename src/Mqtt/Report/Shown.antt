-- ===== src/Mqtt/Report/Shown.antt =====
-- What a reader of the reports of src/mqtt/ha_task.c knows of the inputs and the relays.
use cedar_switch_3i3o_power.Common.{
  ℕ, zero, suc, ◌-◌, ◌%◌, ◌≤◌, ◌<◌, ◌≡◌, refl, ◌⊎◌, Bool, true, false, not, arith, length,
}
use cedar_switch_3i3o_power.Common.CString.{Bytes}
use cedar_switch_3i3o_power.Mqtt.Device.{Device}
use cedar_switch_3i3o_power.Mqtt.Topics.Shape.{status_topic}
use cedar_switch_3i3o_power.Mqtt.Report.{get_bit, Watch, status_message, report_changes}
use cedar_switch_3i3o_power.Mqtt.Report.Loop.{
  shown, of_type, payload, changed, shown-report_same, shown-report_other,
}

module _ (null_text : Bytes) (d : Device) where
  -- A bit that has not changed null_text d has the same payload null_text d.
  payload_same :
      (relay : Bool) (number state old : ℕ)
      → changed null_text d number state old ≡ false
      → payload null_text d relay number old ≡ payload null_text d relay number state
  unfolding status_message
  payload_same relay number state old h =
      let same : get_bit old (number - 1) ≡ get_bit state (number - 1) = ground arith in
      rw (payload, same) refl

  -- An inverted state differs in every bit.
  pub changed_inverted :
      (number state : ℕ)
      → 1 ≤ number
      → number ≤ 3
      → changed null_text d number state (255 - state % 256) ≡ true
  unfolding get_bit
  changed_inverted zero state l h = absurd (omega arith)
  changed_inverted (suc zero) state l h = ground arith
  changed_inverted (suc (suc zero)) state l h = ground arith
  changed_inverted (suc (suc (suc zero))) state l h = ground arith
  changed_inverted (suc (suc (suc (suc n)))) state l h = absurd (omega arith)

  -- After the reports of one type a reader knows the state that was read last, if it knew the state
  -- that was reported before or if the reports were due; that state is the one reported last.
  pub shown-report_changes :
      (relay : Bool) (number now : ℕ) (w : Watch) (before : Bytes)
      → length d.identifier ≤ 31
      → 1 ≤ number
      → number ≤ 3
      → (before ≡ payload null_text d relay number w.old.state) ⊎ (w.next_update < now)
      → (shown
            (status_topic d relay number)
            (report_changes null_text d (of_type relay) now w).0
            before
          ≡ payload null_text d relay number w.current.state)
        × ((report_changes null_text d (of_type relay) now w).1.old.state ≡ w.current.state)
        × ((report_changes null_text d (of_type relay) now w).1.current ≡ w.current)
  unfolding report_changes shown
  shown-report_changes relay number now w before id l h known =
      let state = w.current.state in
      let due =
        shown-report_same null_text d relay number state (255 - state % 256) before id l h in
      let not_due = shown-report_same null_text d relay number state w.old.state before id l h in
      ground (
        arith,
        due,
        not_due,
        changed_inverted number state l h,
        payload_same relay number state w.old.state,
      )

  pub shown-report_changes_other :
      (relay : Bool) (number now : ℕ) (w : Watch) (before : Bytes)
      → length d.identifier ≤ 31
      → 1 ≤ number
      → number ≤ 3
      → shown
          (status_topic d relay number)
          (report_changes null_text d (of_type (not relay)) now w).0
          before
        ≡ before
  unfolding report_changes shown
  shown-report_changes_other relay number now w before id l h = ground (
    arith,
    shown-report_other null_text d relay number w.current.state w.old.state before id l h,
    shown-report_other null_text d relay number w.current.state (255 - w.current.state % 256) before
        id l h,
  )
