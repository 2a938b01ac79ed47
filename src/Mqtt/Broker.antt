-- ===== src/Mqtt/Broker.antt =====
-- What the library has accepted for the broker from the two tasks together, `ha_mqtt_task` (src/mqtt/ha_task.c), which
-- puts messages into the queue, and `mqtt_task` (src/mqtt/ha_mqtt.c), which publishes them.
use cedar_switch_3i3o_power.Common.{
  ℕ, ◌≤◌, ◌<◌, ◌≡◌, refl, ◌∙◌, ap, inl, inr, Bool, true, false, List, [], ◌∷◌, ◌++◌, All,
  Bool-cases, if◌then◌else◌, length,
}
use cedar_switch_3i3o_power.Common.CString.{Bytes, bytes_eq, is_empty}
use cedar_switch_3i3o_power.Bus.{OutputsMsg}
use cedar_switch_3i3o_power.Web.MqttSettings.{MqttConfig}
use cedar_switch_3i3o_power.Mqtt.Queue.{MqttMsg}
use cedar_switch_3i3o_power.Mqtt.Queue.Order.{sendable}
use cedar_switch_3i3o_power.Mqtt.Device.{Device, hex_bytes}
use cedar_switch_3i3o_power.Mqtt.Topics.{get_status_topik_string, topic_base}
use cedar_switch_3i3o_power.Mqtt.Topics.Shape.{status_topic}
use cedar_switch_3i3o_power.Mqtt.Report.Loop.{shown}
use cedar_switch_3i3o_power.Mqtt.Client.{Library, ClientTask}
use cedar_switch_3i3o_power.Mqtt.Client.Delivery.{messages}
use cedar_switch_3i3o_power.Mqtt.Client.Passes.{PassSeen, mqtt_task_passes}
use cedar_switch_3i3o_power.Mqtt.Client.Complete.{task_heard, mqtt_task_order}
use cedar_switch_3i3o_power.Mqtt.Task.{HaState, TaskRound}
use cedar_switch_3i3o_power.Mqtt.Task.Shown.{after}
use cedar_switch_3i3o_power.Mqtt.Task.Informed.{named}
use cedar_switch_3i3o_power.Mqtt.Task.Session.{wait_connected, SessionSeen, ha_sessions}
use cedar_switch_3i3o_power.Mqtt.Task.Lasting.{IsThis, ha_sessions_informs}
use cedar_switch_3i3o_power.Mqtt.Task.Pass.{IsInformed, IsFirst}

empty_topic :
    (c : ℕ) (topic other payload before : Bytes)
    → is_empty other ≡ true
    → before ≡ (if bytes_eq (c ∷ topic) other then payload else before)
unfolding bytes_eq
empty_topic c topic [] payload before h = refl
empty_topic c topic (o ∷ other) payload before h = cc

skipped :
    (c : ℕ) (topic : Bytes) (msg : MqttMsg) (before : Bytes)
    → is_empty msg.topic ≡ true
    → before ≡ (if bytes_eq (c ∷ topic) msg.topic then msg.payload else before)
unfolding bytes_eq
skipped c topic msg before nameless = empty_topic c topic msg.topic msg.payload before nameless

-- A message without a topic is not published, and nobody would see it.
shown-sendable :
    (c : ℕ) (topic : Bytes) (ms : List MqttMsg) (before : Bytes)
    → shown (c ∷ topic) (sendable ms) before ≡ shown (c ∷ topic) ms before
unfolding shown sendable
shown-sendable c topic [] before = refl
shown-sendable c topic (msg ∷ ms) before = elim (Bool-cases (is_empty msg.topic)) [
  | inl nameless ↦ rw (nameless) (
      shown-sendable c topic ms before
      ∙ ap (shown (c ∷ topic) ms) (skipped c topic msg before nameless))
  | inr with_topic ↦ rw (with_topic) (shown-sendable c topic ms _)
]

-- The status topics are not empty.
shown-sendable_status :
    (d : Device) (relay : Bool) (number : ℕ) (ms : List MqttMsg) (before : Bytes)
    → shown (status_topic d relay number) (sendable ms) before
      ≡ shown (status_topic d relay number) ms before
unfolding get_status_topik_string topic_base
shown-sendable_status d true number ms before = shown-sendable _ _ ms before
shown-sendable_status d false number ms before = shown-sendable _ _ ms before

module _ (null_text : Bytes) (shifted_out : ℕ → ℕ) (is_ipv4 is_ipv6 : Bytes → Bool) (id : List ℕ)
    (low : 0 < length id) (high : length id ≤ 15) (lib : Library) (null_length : ℕ) where
  -- What the library has accepted is what the task has sent, less what the queue still holds.
  published_all :
      (sett : MqttConfig) (passes : List PassSeen) (t : ClientTask lib is_ipv4 is_ipv6)
      (sent : List MqttMsg)
      → t.adapter.queue ≡ []
      → task_heard lib is_ipv4 is_ipv6 null_length sett passes t ≡ sent
      → let (published, task) = mqtt_task_passes lib is_ipv4 is_ipv6 null_length sett passes t in
        messages published ++ sendable task.adapter.queue ≡ sendable sent
  published_all sett passes t sent empty heard =
      mqtt_task_order lib is_ipv4 is_ipv6 null_length sett passes t
      ∙ ap (λ q. sendable (q ++ task_heard lib is_ipv4 is_ipv6 null_length sett passes t)) empty
      ∙ ap sendable heard

  -- Both tasks together hand over the state, where the messages that the reporting task puts into
  -- the queue are those that come into it while the client's task runs: in the messages for which
  -- mqtt_publish has returned 0, followed by those that the queue still holds, the last payload on
  -- each of the six status topics is that of the state which the reporting task has read last,
  -- however often either task has lost the connection; once that task's first round has found the
  -- client connected and both reports due, and where the hardware always gives the same identifier
  -- of 1 to 15 bytes. Whether the broker gets a message that the library has accepted is not said.
  pub published-IsInformed :
      (first : SessionSeen) (r : TaskRound) (rounds : List TaskRound) (later : List SessionSeen)
      (d : Device) (chan : OutputsMsg) (st : HaState) (view : Bytes → Bytes) (sett : MqttConfig)
      (passes : List PassSeen) (t : ClientTask lib is_ipv4 is_ipv6)
      → All (IsThis null_text shifted_out is_ipv4 is_ipv6 id low high) (first ∷ later)
      → (wait_connected first.waits st.status).0 ≡ true
      → first.rounds ≡ r ∷ rounds
      → IsFirst null_text shifted_out is_ipv4 is_ipv6 r st
      → t.adapter.queue ≡ []
      → task_heard lib is_ipv4 is_ipv6 null_length sett passes t
        ≡ (ha_sessions null_text shifted_out is_ipv4 is_ipv6 (first ∷ later) d chan st).sent
      → let (published, task) = mqtt_task_passes lib is_ipv4 is_ipv6 null_length sett passes t in
        IsInformed null_text shifted_out is_ipv4 is_ipv6
          (named (hex_bytes id))
          (after null_text shifted_out
            (named (hex_bytes id))
            (messages published ++ sendable task.adapter.queue)
            view)
          (ha_sessions null_text shifted_out is_ipv4 is_ipv6 (first ∷ later) d chan st).state
  published-IsInformed first r rounds later d chan st view sett passes t these waited begins due
        empty heard =
      let out = ha_sessions null_text shifted_out is_ipv4 is_ipv6 (first ∷ later) d chan st in
      let (known, reported) =
        ha_sessions_informs null_text shifted_out is_ipv4 is_ipv6 id low high first r rounds later d
          chan st view these waited begins due in
      let all = published_all sett passes t out.sent empty heard in
      (
        λ relay number l h.
            ap
              (λ ms.
                shown (status_topic (named (hex_bytes id)) relay number) ms
                  (view (status_topic (named (hex_bytes id)) relay number)))
              all
            ∙ shown-sendable_status (named (hex_bytes id)) relay number out.sent _
            ∙ known relay number l h,
        reported,
      )
