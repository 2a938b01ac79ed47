-- ===== src/Mqtt/Task/Pass.antt =====
-- The reports of one pass of the outer loop of `ha_mqtt_task` (src/mqtt/ha_task.c).
use cedar_switch_3i3o_power.Common.{ℕ, ◌≤◌, ◌≡◌, Bool, true, List, [], ◌∷◌, length}
use cedar_switch_3i3o_power.Common.CString.{Bytes}
use cedar_switch_3i3o_power.Bus.{OutputsMsg}
use cedar_switch_3i3o_power.Mqtt.Device.{Device}
use cedar_switch_3i3o_power.Mqtt.Report.{devices}
use cedar_switch_3i3o_power.Mqtt.Task.{HaState, TaskRound, register, ha_rounds}
use cedar_switch_3i3o_power.Mqtt.Task.Reports.{IsReported, ha_rounds-IsReported, ha_rounds_informs}
use cedar_switch_3i3o_power.Mqtt.Task.Shown.{IsShown, IsDue, after, ha_rounds-IsShown}
use cedar_switch_3i3o_power.Mqtt.Task.Informed.{named, announced-IsShown}
use cedar_switch_3i3o_power.Mqtt.Task.Session.{SessionSeen, SessionOutcome, connected_session}

module _ (null_text : Bytes) (shifted_out : ℕ → ℕ) (is_ipv4 is_ipv6 : Bytes → Bool) where
  -- A reader knows what was reported last, and that is what was read last.
  abbrev pub IsInformed : Device → (Bytes → Bytes) → HaState → Type 0
  IsInformed d view st =
      IsShown null_text shifted_out d view st × IsReported null_text shifted_out d st

  abbrev pub IsInformedAfter : Device → (Bytes → Bytes) → SessionOutcome → Type 0
  IsInformedAfter d view out = IsInformed d (after null_text shifted_out d out.sent view) out.state

  pub connected_session-IsInformed :
      (d : Device) (seen : SessionSeen) (chan : OutputsMsg) (st : HaState) (view : Bytes → Bytes)
      → length d.identifier ≤ 31
      → IsInformed d view st
      → IsInformedAfter d view
          (connected_session null_text shifted_out is_ipv4 is_ipv6 d seen chan st)
  unfolding connected_session
  connected_session-IsInformed d seen chan st view id (known, reported) =
      let registered = register d seen.announced 0 devices st.status in
      let st' : HaState = record st { status = registered.1 } in
      let out = ha_rounds null_text shifted_out d seen.rounds (seen.others chan) st' in
      (
        announced-IsShown null_text shifted_out d seen.announced st.status out.sent view out.state (
            ha_rounds-IsShown null_text shifted_out d seen.rounds (seen.others chan) st' view id
              known),
        ha_rounds-IsReported null_text shifted_out d seen.rounds (seen.others chan) st' reported,
      )

  -- A round that finds the client connected, and whose reports are due.
  abbrev pub IsFirst : TaskRound → HaState → Type 0
  IsFirst r st =
      (r.got_status ≡ true)
      × (r.status.connected ≡ true)
      × IsDue null_text shifted_out (named []) r.now st

  pub connected_session-IsFirst :
      (d : Device) (seen : SessionSeen) (r : TaskRound) (rounds : List TaskRound)
      (chan : OutputsMsg) (st : HaState) (view : Bytes → Bytes)
      → length d.identifier ≤ 31
      → seen.rounds ≡ r ∷ rounds
      → IsFirst r st
      → IsInformedAfter d view
          (connected_session null_text shifted_out is_ipv4 is_ipv6 d seen chan st)
  unfolding connected_session
  connected_session-IsFirst d seen r rounds chan st view id begins (got, up, due) =
      let registered = register d seen.announced 0 devices st.status in
      let st' : HaState = record st { status = registered.1 } in
      let out = ha_rounds null_text shifted_out d (r ∷ rounds) (seen.others chan) st' in
      let (known, reported) =
        ha_rounds_informs null_text shifted_out d r rounds (seen.others chan) st' view id
          (rw (got) up) due in
      rw (begins) (
        announced-IsShown null_text shifted_out d seen.announced st.status out.sent view out.state
            known,
        reported,
      )
