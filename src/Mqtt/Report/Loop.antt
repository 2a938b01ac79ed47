-- ===== src/Mqtt/Report/Loop.antt =====
-- What a reader of the messages that the loop over the devices of src/mqtt/ha_task.c sends knows.
use cedar_switch_3i3o_power.Common.{
  ℕ, zero, suc, ◌-◌, ◌≤◌, ◌≡◌, refl, ◌∙◌, ap, Bool, true, false, not, ◌&&◌, List, [], ◌∷◌, ◌++◌,
  ◌==◌, arith, length, if◌then◌else◌,
}
use cedar_switch_3i3o_power.Common.CString.{Bytes, bytes_eq}
use cedar_switch_3i3o_power.Common.Format.{dec, digits_from}
use cedar_switch_3i3o_power.Mqtt.Queue.{MqttMsg}
use cedar_switch_3i3o_power.Mqtt.Device.{DevType, Device}
use cedar_switch_3i3o_power.Mqtt.Topics.Shape.{
  io_type, status_suffix, status_topic, bytes_eq-status_topic,
}
use cedar_switch_3i3o_power.Mqtt.Report.{
  devices, get_bit, is_input, is_output, status_message, report,
}

-- The payload of the last message on a topic, where `before` was known.
unfoldable pub shown : Bytes → List MqttMsg → Bytes → Bytes
shown topic [] before = before
shown topic (msg ∷ rest) before =
    shown topic rest (if bytes_eq topic msg.topic then msg.payload else before)

pub shown-append :
    (topic : Bytes) (ms ns : List MqttMsg) (before : Bytes)
    → shown topic (ms ++ ns) before ≡ shown topic ns (shown topic ms before)
unfolding shown
shown-append topic [] ns before = refl
shown-append topic (msg ∷ ms) ns before = shown-append topic ms ns _

keep : Bool → MqttMsg → List MqttMsg → List MqttMsg
keep b msg rest = if b then msg ∷ rest else rest

-- Effect of a message that may be left out.
update : Bytes → Bool → MqttMsg → Bytes → Bytes
update topic b msg before =
    if b then (if bytes_eq topic msg.topic then msg.payload else before) else before

shown-keep :
    (topic : Bytes) (b : Bool) (msg : MqttMsg) (rest : List MqttMsg) (before : Bytes)
    → shown topic (keep b msg rest) before ≡ shown topic rest (update topic b msg before)
unfolding shown keep update
shown-keep topic true msg rest before = refl
shown-keep topic false msg rest before = refl

update_other :
    (topic : Bytes) (b : Bool) (msg : MqttMsg) (before : Bytes)
    → bytes_eq topic msg.topic ≡ false
    → update topic b msg before ≡ before
unfolding update
update_other topic b msg before h = ground arith

-- The type that the loop looks for.
abbrev pub of_type : Bool → DevType → Bool
of_type relay = if relay then is_output else is_input

-- Two of the six status topics are the same only for the same device.
abbrev same_device : Bool → ℕ → Bool → ℕ → Bool
same_device relay number other n = bytes_eq (status_suffix relay number) (status_suffix other n)

module _ (null_text : Bytes) (d : Device) where
  abbrev pub payload : Bool → ℕ → ℕ → Bytes
  payload relay number state = (status_message null_text d (io_type relay) number state).payload

  abbrev pub changed : ℕ → ℕ → ℕ → Bool
  changed number state old = not (get_bit state (number - 1) == get_bit old (number - 1))

  abbrev message : Bool → ℕ → ℕ → MqttMsg
  message relay number state = status_message null_text d (io_type relay) number state

  report_three :
      (relay : Bool) (state old : ℕ)
      → report null_text d (of_type relay) state old devices
        ≡ keep (changed 1 state old) (message relay 1 state) (
            keep
              (changed 2 state old)
              (message relay 2 state)
              (keep (changed 3 state old) (message relay 3 state) []))
  unfolding report keep
  report_three true state old = refl
  report_three false state old = refl

  topic-message :
      (relay : Bool) (number state : ℕ)
      → (message relay number state).topic ≡ status_topic d relay number
  unfolding status_message
  topic-message relay number state = refl

  shown-report :
      (topic : Bytes) (relay : Bool) (state old : ℕ) (before : Bytes)
      → shown topic (report null_text d (of_type relay) state old devices) before
        ≡ update topic (changed 3 state old) (message relay 3 state) (
            update topic
              (changed 2 state old)
              (message relay 2 state)
              (update topic (changed 1 state old) (message relay 1 state) before))
  unfolding shown
  shown-report topic relay state old before =
      ap (λ ms. shown topic ms before) (report_three relay state old)
      ∙ (shown-keep topic _ _ _ before ∙ shown-keep topic _ _ _ _ ∙ shown-keep topic _ _ _ _)

  update_message :
      (relay other : Bool) (number n state : ℕ) (b : Bool) (before : Bytes)
      → length d.identifier ≤ 31
      → number ≤ 3
      → n ≤ 3
      → update (status_topic d relay number) b (message other n state) before
        ≡ (if b && same_device relay number other n then payload other n state else before)
  unfolding update
  update_message relay other number n state true before id h k =
      rw
        (
          topic-message other n state,
          bytes_eq-status_topic d relay other number n id (omega arith) (omega arith),
        )
        refl
  update_message relay other number n state false before id h k = refl

  abbrev replaced : Bool → Bytes → Bytes → Bytes
  replaced b text before = if b then text else before

  -- The reports of the devices of type `other`, for any device.
  shown-report_all :
      (relay other : Bool) (number state old : ℕ) (before : Bytes)
      → length d.identifier ≤ 31
      → number ≤ 3
      → shown
          (status_topic d relay number)
          (report null_text d (of_type other) state old devices)
          before
        ≡ replaced
            (changed 3 state old && same_device relay number other 3)
            (payload other 3 state)
            (replaced
              (changed 2 state old && same_device relay number other 2)
              (payload other 2 state)
              (replaced
                (changed 1 state old && same_device relay number other 1)
                (payload other 1 state)
                before))
  shown-report_all relay other number state old before id h =
      rw
        (
          shown-report _ other state old before,
          update_message relay other number 3 state _ _ id h (omega arith),
          update_message relay other number 2 state _ _ id h (omega arith),
          update_message relay other number 1 state _ _ id h (omega arith),
        )
        refl

  -- The reports of one type, for a device of that type.
  pub shown-report_same :
      (relay : Bool) (number state old : ℕ) (before : Bytes)
      → length d.identifier ≤ 31
      → 1 ≤ number
      → number ≤ 3
      → shown
          (status_topic d relay number)
          (report null_text d (of_type relay) state old devices)
          before
        ≡ replaced (changed number state old) (payload relay number state) before
  unfolding bytes_eq dec digits_from
  shown-report_same relay zero state old before id l h = absurd (omega arith)
  shown-report_same true (suc zero) state old before id l h =
      shown-report_all true true 1 state old before id h ∙ ground arith
  shown-report_same false (suc zero) state old before id l h =
      shown-report_all false false 1 state old before id h ∙ ground arith
  shown-report_same true (suc (suc zero)) state old before id l h =
      shown-report_all true true 2 state old before id h ∙ ground arith
  shown-report_same false (suc (suc zero)) state old before id l h =
      shown-report_all false false 2 state old before id h ∙ ground arith
  shown-report_same true (suc (suc (suc zero))) state old before id l h =
      shown-report_all true true 3 state old before id h ∙ ground arith
  shown-report_same false (suc (suc (suc zero))) state old before id l h =
      shown-report_all false false 3 state old before id h ∙ ground arith
  shown-report_same relay (suc (suc (suc (suc n)))) state old before id l h = absurd (omega arith)

  -- The reports of the other type change nothing.
  pub shown-report_other :
      (relay : Bool) (number state old : ℕ) (before : Bytes)
      → length d.identifier ≤ 31
      → 1 ≤ number
      → number ≤ 3
      → shown
          (status_topic d relay number)
          (report null_text d (of_type (not relay)) state old devices)
          before
        ≡ before
  unfolding bytes_eq
  shown-report_other true number state old before id l h =
      shown-report_all true false number state old before id h ∙ ground arith
  shown-report_other false number state old before id l h =
      shown-report_all false true number state old before id h ∙ ground arith
