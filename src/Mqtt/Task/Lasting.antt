-- ===== src/Mqtt/Task/Lasting.antt =====
-- The reports of the outer loop of `ha_mqtt_task` (src/mqtt/ha_task.c).
use cedar_switch_3i3o_power.Common.{
  ℕ, ◌≤◌, ◌<◌, ◌≡◌, ◌∙◌, sym, inl, inr, Bool, true, List, [], ◌∷◌, All, Bool-cases, length, arith,
  subst,
}
use cedar_switch_3i3o_power.Common.CString.{Bytes}
use cedar_switch_3i3o_power.Bus.{OutputsMsg}
use cedar_switch_3i3o_power.Mqtt.Device.{Device, hex_bytes}
use cedar_switch_3i3o_power.Mqtt.Device.Identifier.{length-hex_bytes}
use cedar_switch_3i3o_power.Mqtt.Adapter.{ha_mqtt_init}
use cedar_switch_3i3o_power.Mqtt.Adapter.Subscription.{identifier-init}
use cedar_switch_3i3o_power.Mqtt.Task.{HaState, TaskRound}
use cedar_switch_3i3o_power.Mqtt.Task.Shown.{IsShown, after, after-append}
use cedar_switch_3i3o_power.Mqtt.Task.Informed.{shown_nil, named, IsShown-named, named-IsShown}
use cedar_switch_3i3o_power.Mqtt.Task.Session.{
  wait_connected, SessionSeen, connected_session, ha_session, ha_sessions,
}
use cedar_switch_3i3o_power.Mqtt.Task.Pass.{
  IsInformed, IsInformedAfter, connected_session-IsInformed, IsFirst, connected_session-IsFirst,
}

module _ (null_text : Bytes) (shifted_out : ℕ → ℕ) (is_ipv4 is_ipv6 : Bytes → Bool) where
  module _ (id : List ℕ) (low : 0 < length id) (high : length id ≤ 15) where
    abbrev pub IsThis : SessionSeen → Type 0
    IsThis seen = seen.hw_id ≡ inr id

    -- The device of a pass.
    abbrev device_of : SessionSeen → Device → Device
    device_of seen d = (ha_mqtt_init is_ipv4 is_ipv6 seen.hw_id seen.iface d).1

    identifier-device_of :
        (seen : SessionSeen) (d : Device)
        → IsThis seen
        → (device_of seen d).identifier ≡ hex_bytes id
    identifier-device_of seen d this =
        rw (this) (identifier-init is_ipv4 is_ipv6 id seen.iface d low high)

    short-device_of :
        (seen : SessionSeen) (d : Device) → IsThis seen → length (device_of seen d).identifier ≤ 31
    short-device_of seen d this =
        rw (identifier-device_of seen d this) (omega (arith, length-hex_bytes id))

    -- The device of a pass and the device of this identifier have the same readers.
    to_named :
        (seen : SessionSeen) (d : Device) (view : Bytes → Bytes) (st : HaState)
        → IsThis seen
        → IsInformed null_text shifted_out is_ipv4 is_ipv6 (device_of seen d) view st
        → IsInformed null_text shifted_out is_ipv4 is_ipv6 (named (hex_bytes id)) view st
    to_named seen d view st this (known, reported) = (
      subst (λ name. IsShown null_text shifted_out (named name) view st)
          (identifier-device_of seen d this)
          (IsShown-named null_text shifted_out (device_of seen d) view st known),
      reported,
    )

    of_named :
        (seen : SessionSeen) (d : Device) (view : Bytes → Bytes) (st : HaState)
        → IsThis seen
        → IsInformed null_text shifted_out is_ipv4 is_ipv6 (named (hex_bytes id)) view st
        → IsInformed null_text shifted_out is_ipv4 is_ipv6 (device_of seen d) view st
    of_named seen d view st this (known, reported) = (
      named-IsShown null_text shifted_out (device_of seen d) view st (
          subst (λ name. IsShown null_text shifted_out (named name) view st)
            (sym (identifier-device_of seen d this)) known),
      reported,
    )

    ha_session-IsInformed :
        (seen : SessionSeen) (d : Device) (chan : OutputsMsg) (st : HaState) (view : Bytes → Bytes)
        → IsThis seen
        → IsInformed null_text shifted_out is_ipv4 is_ipv6 (named (hex_bytes id)) view st
        → IsInformedAfter null_text shifted_out is_ipv4 is_ipv6
            (named (hex_bytes id))
            view
            (ha_session null_text shifted_out is_ipv4 is_ipv6 seen d chan st)
    unfolding ha_session
    ha_session-IsInformed seen d chan st view this (known, reported) =
        let waited = wait_connected seen.waits st.status in
        let st' : HaState = record st { status = waited.1 } in
        let out =
          connected_session null_text shifted_out is_ipv4 is_ipv6 (device_of seen d) seen chan
            st' in
        elim (Bool-cases waited.0) [
          | inl up ↦ rw (up) (
              to_named seen d (after null_text shifted_out (named (hex_bytes id)) out.sent view)
                out.state this
                (connected_session-IsInformed null_text shifted_out is_ipv4 is_ipv6
                  (device_of seen d) seen chan st' view (short-device_of seen d this)
                  (of_named seen d view st' this (known, reported))))
          | inr waiting ↦
              rw (waiting) (λ relay number l h. shown_nil _ _ ∙ known relay number l h, reported)
        ]

    ha_sessions-IsInformed :
        (sessions : List SessionSeen) (d : Device) (chan : OutputsMsg) (st : HaState)
        (view : Bytes → Bytes)
        → All IsThis sessions
        → IsInformed null_text shifted_out is_ipv4 is_ipv6 (named (hex_bytes id)) view st
        → IsInformedAfter null_text shifted_out is_ipv4 is_ipv6
            (named (hex_bytes id))
            view
            (ha_sessions null_text shifted_out is_ipv4 is_ipv6 sessions d chan st)
    unfolding ha_sessions
    ha_sessions-IsInformed [] d chan st view this (known, reported) =
        (λ relay number l h. shown_nil _ _ ∙ known relay number l h, reported)
    ha_sessions-IsInformed (seen ∷ rest) d chan st view (this, these) informed =
        let here = ha_session null_text shifted_out is_ipv4 is_ipv6 seen d chan st in
        let now = ha_session-IsInformed seen d chan st view this informed in
        let later =
          ha_sessions null_text shifted_out is_ipv4 is_ipv6 rest here.device here.chan here.state in
        let (known, reported) =
          ha_sessions-IsInformed rest here.device here.chan here.state
            (after null_text shifted_out (named (hex_bytes id)) here.sent view) these now in
        elim (Bool-cases here.ended) [
          | inl on ↦ rw (on) (
            after-append null_text shifted_out (named (hex_bytes id)) here.sent later.sent view
                later.state known,
            reported,
          )
          | inr off ↦ rw (off) now
        ]

    -- Once a pass of the outer loop has waited for the connection and its first round finds the client
    -- connected and both reports due, as it does after the start, then however many rounds and passes
    -- follow, and whatever they find, the last payload on each of the six status topics is that of the
    -- state the task has reported last, and that is the state it has read last; where the hardware
    -- always gives the same identifier of 1 to 15 bytes.
    pub ha_sessions_informs :
        (first : SessionSeen) (r : TaskRound) (rounds : List TaskRound) (later : List SessionSeen)
        (d : Device) (chan : OutputsMsg) (st : HaState) (view : Bytes → Bytes)
        → All IsThis (first ∷ later)
        → (wait_connected first.waits st.status).0 ≡ true
        → first.rounds ≡ r ∷ rounds
        → IsFirst null_text shifted_out is_ipv4 is_ipv6 r st
        → IsInformedAfter null_text shifted_out is_ipv4 is_ipv6
            (named (hex_bytes id))
            view
            (ha_sessions null_text shifted_out is_ipv4 is_ipv6 (first ∷ later) d chan st)
    unfolding ha_sessions ha_session
    ha_sessions_informs first r rounds later d chan st view (this, these) waited begins due =
        let status = (wait_connected first.waits st.status).1 in
        let st' : HaState = record st { status = status } in
        let here =
          connected_session null_text shifted_out is_ipv4 is_ipv6 (device_of first d) first chan
            st' in
        let rest =
          ha_sessions null_text shifted_out is_ipv4 is_ipv6 later here.device here.chan
            here.state in
        let now =
          to_named first d (after null_text shifted_out (named (hex_bytes id)) here.sent view)
            here.state this
            (connected_session-IsFirst null_text shifted_out is_ipv4 is_ipv6 (device_of first d)
              first r rounds chan st' view (short-device_of first d this) begins due) in
        let (known, reported) =
          ha_sessions-IsInformed later here.device here.chan here.state
            (after null_text shifted_out (named (hex_bytes id)) here.sent view) these now in
        elim (Bool-cases here.ended) [
          | inl on ↦
              rw (waited, on)
                (
                  after-append null_text shifted_out (named (hex_bytes id)) here.sent rest.sent view
                      rest.state known,
                  reported,
                )
          | inr off ↦ rw (waited, off) now
        ]
