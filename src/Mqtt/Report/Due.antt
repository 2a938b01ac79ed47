-- ===== src/Mqtt/Report/Due.antt =====
-- The full reports of src/mqtt/ha_task.c, which are due every update_period_sec seconds.
use cedar_switch_3i3o_power.Common.{
  ℕ, zero, suc, ◌+◌, ◌-◌, ◌%◌, ◌^◌, ◌≤◌, ◌<◌, ◌≡◌, refl, inl, inr, Bool, true, false, List, [], ◌∷◌,
  ◌==◌, ltb, Any, arith,
}
use cedar_switch_3i3o_power.Common.CString.{Bytes}
use cedar_switch_3i3o_power.Mqtt.Queue.{MqttMsg}
use cedar_switch_3i3o_power.Mqtt.Device.{Device}
use cedar_switch_3i3o_power.Mqtt.Topics.Shape.{io_type, status_topic}
use cedar_switch_3i3o_power.Mqtt.Report.{devices, Watch, status_message, report, report_changes}
use cedar_switch_3i3o_power.Mqtt.Report.Shown.{changed_inverted}
use cedar_switch_3i3o_power.Mqtt.Report.Loop.{of_type}

-- Some message is on the topic.
abbrev pub IsOn : Bytes → List MqttMsg → Type 0
IsOn topic = Any (λ msg. msg.topic ≡ topic)

module _ (null_text : Bytes) (d : Device) where
  -- An inverted state has every device of the type reported.
  report_inverted :
      (relay : Bool) (state : ℕ)
      → report null_text d (of_type relay) state (255 - state % 256) devices
        ≡ status_message null_text d (io_type relay) 1 state
          ∷ status_message null_text d (io_type relay) 2 state
          ∷ status_message null_text d (io_type relay) 3 state
          ∷ []
  unfolding report
  report_inverted true state =
      rw
        (
          changed_inverted null_text d 1 state (omega arith) (omega arith),
          changed_inverted null_text d 2 state (omega arith) (omega arith),
          changed_inverted null_text d 3 state (omega arith) (omega arith),
        )
        refl
  report_inverted false state =
      rw
        (
          changed_inverted null_text d 1 state (omega arith) (omega arith),
          changed_inverted null_text d 2 state (omega arith) (omega arith),
          changed_inverted null_text d 3 state (omega arith) (omega arith),
        )
        refl

  IsOn-three :
      (relay : Bool) (number state : ℕ)
      → 1 ≤ number
      → number ≤ 3
      → IsOn (status_topic d relay number) (
          status_message null_text d (io_type relay) 1 state
          ∷ status_message null_text d (io_type relay) 2 state
          ∷ status_message null_text d (io_type relay) 3 state
          ∷ [])
  unfolding status_message
  IsOn-three relay zero state l h = absurd (omega arith)
  IsOn-three relay (suc zero) state l h = inl refl
  IsOn-three relay (suc (suc zero)) state l h = inr (inl refl)
  IsOn-three relay (suc (suc (suc zero))) state l h = inr (inr (inl refl))
  IsOn-three relay (suc (suc (suc (suc n)))) state l h = absurd (omega arith)

  pub report_changes-due :
      (relay : Bool) (number now : ℕ) (w : Watch)
      → 1 ≤ number
      → number ≤ 3
      → w.next_update < now
      → IsOn (status_topic d relay number) (report_changes null_text d (of_type relay) now w).0
  unfolding report_changes
  report_changes-due relay number now w l h due =
      let overdue : ltb w.next_update now ≡ true = ground arith in
      let differs : (w.current.state == 255 - w.current.state % 256) ≡ false = ground arith in
      rw (overdue) (
        rw (differs) (
          rw (report_inverted relay w.current.state) (IsOn-three relay number w.current.state l h)))

  pub next_update-report_changes :
      (relay : Bool) (now limit : ℕ) (w : Watch)
      → now ≤ limit
      → limit + 500 < 2 ^ 32
      → w.next_update ≤ limit + 500
      → (report_changes null_text d (of_type relay) now w).1.next_update ≤ limit + 500
  unfolding report_changes
  next_update-report_changes relay now limit w h small next = ground arith
