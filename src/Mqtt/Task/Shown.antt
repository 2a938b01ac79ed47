-- ===== src/Mqtt/Task/Shown.antt =====
-- What a reader of the reports of `ha_mqtt_task` (src/mqtt/ha_task.c) knows of its variables.
use cedar_switch_3i3o_power.Common.{
  ℕ, ◌≤◌, ◌<◌, ◌≡◌, ◌∙◌, sym, ap, ◌⊎◌, inl, inr, Bool, true, false, List, [], ◌∷◌, ◌++◌, Bool-cases,
  if◌then◌else◌, length,
}
use cedar_switch_3i3o_power.Common.CString.{Bytes}
use cedar_switch_3i3o_power.Bus.{OutputsMsg, chan_read}
use cedar_switch_3i3o_power.Mqtt.Queue.{MqttMsg}
use cedar_switch_3i3o_power.Mqtt.Device.{Device}
use cedar_switch_3i3o_power.Mqtt.Topics.Shape.{status_topic}
use cedar_switch_3i3o_power.Mqtt.Report.{Watch, report_changes}
use cedar_switch_3i3o_power.Mqtt.Report.Shown.{shown-report_changes, shown-report_changes_other}
use cedar_switch_3i3o_power.Mqtt.Report.Loop.{shown, shown-append, payload, of_type}
use cedar_switch_3i3o_power.Mqtt.Task.{
  HaState, report_inputs, report_outputs, TaskRound, connected_round, ha_round, ha_rounds,
}

-- The variables for the inputs or for the relays.
abbrev pub watch : Bool → HaState → Watch
watch relay st = if relay then st.outputs else st.inputs

module _ (null_text : Bytes) (shifted_out : ℕ → ℕ) (d : Device) where
  -- What a reader knows of each input and relay is the state that the task reported last; `view` is
  -- the payload that it has seen last on a topic.
  abbrev pub IsShown : (Bytes → Bytes) → HaState → Type 0
  IsShown view st =
      (relay : Bool) (number : ℕ)
      → 1 ≤ number
      → number ≤ 3
      → view (status_topic d relay number)
        ≡ payload null_text d relay number (watch relay st).old.state

  -- The reader after some messages.
  abbrev pub after : List MqttMsg → (Bytes → Bytes) → Bytes → Bytes
  after sent view topic = shown topic sent (view topic)

  -- The full reports of both kinds are due.
  abbrev pub IsDue : ℕ → HaState → Type 0
  IsDue now st = (st.inputs.next_update < now) × (st.outputs.next_update < now)

  -- Reports of the inputs, then of the relays.
  abbrev input_reports : ℕ → Watch → List MqttMsg × Watch
  input_reports now w = report_changes null_text d (of_type false) now w

  abbrev relay_reports : ℕ → Watch → List MqttMsg × Watch
  relay_reports now w = report_changes null_text d (of_type true) now w

  -- What a reader knew of one device before, or that the full report is due.
  abbrev Known : Bool → ℕ → ℕ → Watch → Bytes → Type 0
  Known relay number now w before =
      (before ≡ payload null_text d relay number w.old.state) ⊎ (w.next_update < now)

  shown-both_input :
      (number now : ℕ) (wi wo : Watch) (before : Bytes)
      → length d.identifier ≤ 31
      → 1 ≤ number
      → number ≤ 3
      → Known false number now wi before
      → shown
          (status_topic d false number)
          ((input_reports now wi).0 ++ (relay_reports now wo).0)
          before
        ≡ payload null_text d false number (input_reports now wi).1.old.state
  shown-both_input number now wi wo before id l h known =
      let (text, old, _) =
        shown-report_changes null_text d false number now wi before id l h known in
      shown-append (status_topic d false number) (input_reports now wi).0 (relay_reports now wo).0
        before
      ∙ shown-report_changes_other null_text d false number now wo _ id l h
      ∙ text
      ∙ ap (payload null_text d false number) (sym old)

  shown-both_relay :
      (number now : ℕ) (wi wo : Watch) (before : Bytes)
      → length d.identifier ≤ 31
      → 1 ≤ number
      → number ≤ 3
      → Known true number now wo before
      → shown
          (status_topic d true number)
          ((input_reports now wi).0 ++ (relay_reports now wo).0)
          before
        ≡ payload null_text d true number (relay_reports now wo).1.old.state
  shown-both_relay number now wi wo before id l h known =
      let (text, old, _) =
        shown-report_changes null_text d true number now wo before id l h known in
      shown-append (status_topic d true number) (input_reports now wi).0 (relay_reports now wo).0
        before
      ∙ ap (shown (status_topic d true number) (relay_reports now wo).0)
          (shown-report_changes_other null_text d true number now wi before id l h)
      ∙ text
      ∙ ap (payload null_text d true number) (sym old)

  -- A round of the inner loop that finds the client connected.
  pub connected_round-IsShown :
      (r : TaskRound) (chan : OutputsMsg) (st : HaState) (view : Bytes → Bytes)
      → length d.identifier ≤ 31
      → IsShown view st ⊎ IsDue r.now st
      → IsShown
          (after (connected_round null_text shifted_out d r chan st).sent view)
          (connected_round null_text shifted_out d r chan st).state
  unfolding connected_round report_inputs report_outputs
  connected_round-IsShown r chan st view id (inl known) true number l h =
      shown-both_relay number r.now _ _ _ id l h (inl (known true number l h))
  connected_round-IsShown r chan st view id (inr due) true number l h =
      shown-both_relay number r.now _ _ _ id l h (inr due.1)
  connected_round-IsShown r chan st view id (inl known) false number l h =
      shown-both_input number r.now _ _ _ id l h (inl (known false number l h))
  connected_round-IsShown r chan st view id (inr due) false number l h =
      shown-both_input number r.now _ _ _ id l h (inr due.0)

  ha_round-IsShown :
      (r : TaskRound) (chan : OutputsMsg) (st : HaState) (view : Bytes → Bytes)
      → length d.identifier ≤ 31
      → IsShown view st
      → IsShown
          (after (ha_round null_text shifted_out d r chan st).sent view)
          (ha_round null_text shifted_out d r chan st).state
  unfolding ha_round shown
  ha_round-IsShown r chan st view id known =
      let st' : HaState = record st { status = chan_read r.got_status r.status st.status } in
      elim (Bool-cases st'.status.connected) [
        | inl up ↦ rw (up) (connected_round-IsShown r chan st' view id (inl known))
        | inr down ↦ rw (down) known
      ]

  pub after-append :
      (first later : List MqttMsg) (view : Bytes → Bytes) (st : HaState)
      → IsShown (after later (after first view)) st
      → IsShown (after (first ++ later) view) st
  after-append first later view st known relay number l h =
      shown-append (status_topic d relay number) first later _ ∙ known relay number l h

  pub ha_rounds-IsShown :
      (rounds : List TaskRound) (chan : OutputsMsg) (st : HaState) (view : Bytes → Bytes)
      → length d.identifier ≤ 31
      → IsShown view st
      → IsShown
          (after (ha_rounds null_text shifted_out d rounds chan st).sent view)
          (ha_rounds null_text shifted_out d rounds chan st).state
  unfolding ha_rounds shown
  ha_rounds-IsShown [] chan st view id known = known
  ha_rounds-IsShown (r ∷ rest) chan st view id known =
      let here = ha_round null_text shifted_out d r chan st in
      let now = ha_round-IsShown r chan st view id known in
      elim (Bool-cases here.active) [
        | inl up ↦
            let later = ha_rounds null_text shifted_out d rest here.chan here.state in
            rw (up) (
              after-append here.sent later.sent view later.state
                (ha_rounds-IsShown rest here.chan here.state (after here.sent view) id now))
        | inr down ↦ rw (down) now
      ]
