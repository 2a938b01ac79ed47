-- ===== src/Mqtt/Queue/Order.antt =====
-- The order in which `ha_send_data_from_q_to_mqtt` (src/mqtt/ha_mqtt_adapter.c) publishes the
-- queue.
use cedar_switch_3i3o_power.Common.{
  ℕ, zero, suc, ◌^◌, ◌<◌, ◌≡◌, refl, ◌∙◌, sym, ap, true, false, some, List, [], ◌∷◌, ◌++◌, map,
  ◌==◌, if◌then◌else◌, arith, All, ℤ, is_zero, Bool-cases, inl, inr, ◌⊎◌,
}
use cedar_switch_3i3o_power.Common.CString.{is_empty}
use cedar_switch_3i3o_power.Mqtt.Queue.{
  MqttMsg, PublishParam, alloc_mid, needs_mid, Adapter, Sent, send_data_from_q, send_times,
}

-- The messages with a topic; the others are dropped.
unfoldable pub sendable : List MqttMsg → List MqttMsg
sendable [] = []
sendable (msg ∷ rest) = if is_empty msg.topic then sendable rest else msg ∷ sendable rest

-- The identifier fits 16 bits, and is 0 exactly for a message that needs none.
abbrev pub IsNumbered : PublishParam → Type 0
IsNumbered p =
    (p.message_id < 2 ^ 16) × ((p.message_id == 0) ≡ (if needs_mid p.message then false else true))

alloc_mid_lem : (n : ℕ) → (0 < alloc_mid n) × (alloc_mid n < 2 ^ 16)
unfolding alloc_mid
alloc_mid_lem n = ground arith

abbrev next_number : MqttMsg → ℕ → ℕ
next_number msg mid = if needs_mid msg then alloc_mid mid else mid

abbrev param_of : MqttMsg → ℕ → PublishParam
param_of msg mid = record {
  message = msg;
  dup_flag = false;
  message_id = if needs_mid msg then next_number msg mid else 0;
}

param_of-IsNumbered : (msg : MqttMsg) (mid : ℕ) → IsNumbered (param_of msg mid)
param_of-IsNumbered msg mid = ground (arith, alloc_mid_lem mid)

module _ (Net : Type 0) (mqtt_publish : PublishParam → Net → ℤ × Net) where
  -- A call publishes the first message that the queue still holds, or publishes nothing; the
  -- messages with a topic are those before it.
  abbrev Step : Adapter Net mqtt_publish → Sent Net mqtt_publish → Type 0
  Step a sent =
      ((p : PublishParam) × (is_zero sent.rc ≡ true)
        × (sent.pub_param ≡ some p)
        × IsNumbered p
        × (sendable a.queue ≡ p.message ∷ sendable sent.state.queue))
      ⊎ ((is_zero sent.rc ≡ false) × (sendable a.queue ≡ sendable sent.state.queue))

  pub send-Step :
      (queue : List MqttMsg) (mid : ℕ) (net : Net)
      → Step
          (record { queue = queue; next_mid = mid; net = net })
          (send_data_from_q Net mqtt_publish (record { queue = queue; next_mid = mid; net = net }))
  unfolding send_data_from_q sendable
  send-Step [] mid net = inr (refl, refl)
  send-Step (msg ∷ rest) mid net = elim (Bool-cases (is_empty msg.topic)) [
    | inl dropped ↦ rw (dropped) (inr (refl, refl))
    | inr kept ↦ elim (Bool-cases (is_zero (mqtt_publish (param_of msg mid) net).0)) [
      | inl done ↦
          rw (kept)
            (rw (done) (inl (param_of msg mid, refl, refl, param_of-IsNumbered msg mid, refl)))
      | inr failed ↦ rw (kept) (rw (failed) (inr (failed, rw (kept) refl)))
    ]
  ]

  -- However often the function is called and whichever publications fail, what it has published and
  -- what the queue still holds are together the queue's messages with a topic, in their order, none
  -- of them twice; each publication is numbered as its quality of service needs.
  send_times_order :
      (n : ℕ) (a : Adapter Net mqtt_publish)
      → (map (λ p. p.message) (send_times Net mqtt_publish n a).0
            ++ sendable (send_times Net mqtt_publish n a).1.queue
          ≡ sendable a.queue)
        × All IsNumbered (send_times Net mqtt_publish n a).0
  unfolding send_times
  send_times_order zero a = (refl, tt)
  send_times_order (suc n) a =
      let sent = send_data_from_q Net mqtt_publish a in
      let (order, numbered) = send_times_order n sent.state in
      elim (send-Step a.queue a.next_mid a.net) [
        | inl (p, ok, param, number, head) ↦
            rw (ok, send_times)
              (rw (param) (ap (◌∷◌ p.message) order ∙ sym head, (number, numbered)))
        | inr (failed, same) ↦ rw (failed, send_times) (order ∙ sym same, numbered)
      ]
