-- ===== src/Mqtt/Events/Full.antt =====
-- The queue MQTT_MSGQ_RX in `mqtt_evt_handler` of src/mqtt/ha_mqtt_callback.c, and what becomes of the
-- packets that find it full.
use cedar_switch_3i3o_power.Common.{
  ℕ, zero, suc, ◌≤◌, ◌≡◌, refl, ◌∙◌, ap, inl, inr, Bool, false, List, [], ◌∷◌, ◌==◌, ltb, arith,
  Bool-cases, All, Any, Any-append_left, Any-append_right, length, take, drop, pos, negsuc,
}
use cedar_switch_3i3o_power.Common.CString.{Bytes, until_nul}
use cedar_switch_3i3o_power.Mqtt.Queue.{MqttMsg}
use cedar_switch_3i3o_power.Mqtt.Events.{
  Got, queue_size, read_publish, Ack, puback, pubrec, Evt, evt_connack, evt_disconnect, evt_puback,
  evt_publish, evt_pubrec, evt_pubrel, evt_pubcomp, evt_pingresp, Client, set_connected, queue_put,
  on_publish, on_pubrec, on_pubrel, mqtt_evt_handler, Call, handle_calls,
}

module _ (Net : Type 0) (read_payload : ℕ → Net → Got × Net) where
  -- Whatever the quality of service is, the message goes into the queue.
  pub rx-on_publish :
      (topic : Bytes) (to_read qos message_id : ℕ) (retain : Bool) (c : Client Net read_payload)
      → (on_publish Net read_payload topic to_read qos retain message_id c).rx
        ≡ queue_put Net read_payload
            (record {
              topic = until_nul (take 127 topic);
              payload = until_nul (read_publish Net read_payload to_read c.net).0;
              qos = qos;
              retain = retain;
            })
            c.rx
  unfolding on_publish
  rx-on_publish topic to_read qos message_id retain c = elim (Bool-cases (qos == 1)) [
    | inl once ↦ rw (once) refl
    | inr other ↦ elim (Bool-cases (qos == 2)) [
      | inl twice ↦ rw (other, twice) refl
      | inr never ↦ rw (other, never) refl
    ]
  ]

  queue_put-full :
      (msg : MqttMsg) (rx : List MqttMsg)
      → queue_size ≤ length rx
      → queue_put Net read_payload msg rx ≡ rx
  unfolding queue_put
  queue_put-full msg rx full =
      let no_room : ltb (length rx) 16 ≡ false = ground arith in rw (no_room) refl

  handler-full :
      (now : ℕ) (got : Bool) (evt : Evt) (c : Client Net read_payload)
      → queue_size ≤ length c.rx
      → (mqtt_evt_handler Net read_payload now got evt c).rx ≡ c.rx
  unfolding mqtt_evt_handler set_connected on_pubrec on_pubrel
  handler-full now got (evt_connack (pos zero)) c full = refl
  handler-full now got (evt_connack (pos (suc n))) c full = refl
  handler-full now got (evt_connack (negsuc n)) c full = refl
  handler-full now got evt_disconnect c full = refl
  handler-full now got (evt_puback result message_id) c full = refl
  handler-full now got (evt_publish topic to_read qos retain message_id) c full =
      rx-on_publish topic to_read qos message_id retain c ∙ queue_put-full _ c.rx full
  handler-full now got (evt_pubrec (pos zero) message_id) c full = refl
  handler-full now got (evt_pubrec (pos (suc n)) message_id) c full = refl
  handler-full now got (evt_pubrec (negsuc n) message_id) c full = refl
  handler-full now got (evt_pubrel message_id) c full = refl
  handler-full now got (evt_pubcomp result message_id) c full = refl
  handler-full now got evt_pingresp c full = refl

  -- A call before which nobody takes a message from the queue.
  abbrev pub IsUntaken : Call Net read_payload → Type 0
  IsUntaken call = call.taken ≡ 0

  rx-handle_calls :
      (calls : List (Call Net read_payload)) (c : Client Net read_payload)
      → queue_size ≤ length c.rx
      → All IsUntaken calls
      → (handle_calls Net read_payload calls c).rx ≡ c.rx
  unfolding handle_calls
  rx-handle_calls [] c full untaken = refl
  rx-handle_calls (call ∷ rest) c full (here, untaken) =
      let before : Client Net read_payload = record c {
        rx = drop call.taken c.rx;
        chan = call.status;
      } in
      let next = mqtt_evt_handler Net read_payload call.now call.got call.evt before in
      let kept : drop call.taken c.rx ≡ c.rx = ap (λ n. drop n c.rx) here in
      let full_before : queue_size ≤ length (drop call.taken c.rx) = rw (kept) full in
      let same : next.rx ≡ c.rx =
        handler-full call.now call.got call.evt before full_before ∙ kept in
      let full_next : queue_size ≤ length next.rx = rw (same) full in
      rx-handle_calls rest next full_next untaken ∙ same

module _ (Net : Type 0) (read_payload : ℕ → Net → Got × Net) where
  -- What the handler has asked the library to send stays asked.
  kept-on_publish :
      (P : Ack → Type 0) (topic : Bytes) (to_read qos message_id : ℕ) (retain : Bool)
      (c : Client Net read_payload)
      → Any P c.acks
      → Any P (on_publish Net read_payload topic to_read qos retain message_id c).acks
  unfolding on_publish
  kept-on_publish P topic to_read qos message_id retain c h = elim (Bool-cases (qos == 1)) [
    | inl once ↦ rw (once) (Any-append_left P c.acks _ h)
    | inr other ↦ elim (Bool-cases (qos == 2)) [
      | inl twice ↦ rw (other, twice) (Any-append_left P c.acks _ h)
      | inr never ↦ rw (other, never) h
    ]
  ]

  kept-handler :
      (P : Ack → Type 0) (now : ℕ) (got : Bool) (evt : Evt) (c : Client Net read_payload)
      → Any P c.acks
      → Any P (mqtt_evt_handler Net read_payload now got evt c).acks
  unfolding mqtt_evt_handler set_connected on_pubrec on_pubrel
  kept-handler P now got (evt_connack (pos zero)) c h = h
  kept-handler P now got (evt_connack (pos (suc n))) c h = h
  kept-handler P now got (evt_connack (negsuc n)) c h = h
  kept-handler P now got evt_disconnect c h = h
  kept-handler P now got (evt_puback result message_id) c h = h
  kept-handler P now got (evt_publish topic to_read qos retain message_id) c h =
      kept-on_publish P topic to_read qos message_id retain c h
  kept-handler P now got (evt_pubrec (pos zero) message_id) c h = Any-append_left P c.acks _ h
  kept-handler P now got (evt_pubrec (pos (suc n)) message_id) c h = h
  kept-handler P now got (evt_pubrec (negsuc n) message_id) c h = h
  kept-handler P now got (evt_pubrel message_id) c h = Any-append_left P c.acks _ h
  kept-handler P now got (evt_pubcomp result message_id) c h = h
  kept-handler P now got evt_pingresp c h = h

  kept-handle_calls :
      (P : Ack → Type 0) (calls : List (Call Net read_payload)) (c : Client Net read_payload)
      → Any P c.acks
      → Any P (handle_calls Net read_payload calls c).acks
  unfolding handle_calls
  kept-handle_calls P [] c h = h
  kept-handle_calls P (call ∷ rest) c h =
      kept-handle_calls P rest _ (kept-handler P call.now call.got call.evt _ h)

  -- The library has been asked to acknowledge a PUBLISH with quality of service 1, and to report the
  -- receipt of one with quality of service 2.
  abbrev pub IsAsked : Evt → List Ack → Type 0
  IsAsked (evt_publish topic to_read qos retain message_id) acks =
      (qos ≡ 1 → Any (λ a. a ≡ puback message_id) acks)
      × (qos ≡ 2 → Any (λ a. a ≡ pubrec message_id) acks)
  IsAsked other acks = Unit

  kept-IsAsked :
      (calls : List (Call Net read_payload)) (evt : Evt) (c : Client Net read_payload)
      → IsAsked evt c.acks
      → IsAsked evt (handle_calls Net read_payload calls c).acks
  kept-IsAsked calls (evt_connack result) c h = tt
  kept-IsAsked calls evt_disconnect c h = tt
  kept-IsAsked calls (evt_puback result message_id) c h = tt
  kept-IsAsked calls (evt_publish topic to_read qos retain message_id) c (once, twice) = (
    λ e. kept-handle_calls (λ a. a ≡ puback message_id) calls c (once e),
    λ e. kept-handle_calls (λ a. a ≡ pubrec message_id) calls c (twice e),
  )
  kept-IsAsked calls (evt_pubrec result message_id) c h = tt
  kept-IsAsked calls (evt_pubrel message_id) c h = tt
  kept-IsAsked calls (evt_pubcomp result message_id) c h = tt
  kept-IsAsked calls evt_pingresp c h = tt

  handler-IsAsked :
      (now : ℕ) (got : Bool) (evt : Evt) (c : Client Net read_payload)
      → IsAsked evt (mqtt_evt_handler Net read_payload now got evt c).acks
  unfolding mqtt_evt_handler on_publish
  handler-IsAsked now got (evt_connack result) c = tt
  handler-IsAsked now got evt_disconnect c = tt
  handler-IsAsked now got (evt_puback result message_id) c = tt
  handler-IsAsked now got (evt_publish topic to_read qos retain message_id) c = (
    λ e. rw (e) (Any-append_right (λ a. a ≡ puback message_id) c.acks _ (inl refl)),
    λ e. rw (e) (Any-append_right (λ a. a ≡ pubrec message_id) c.acks _ (inl refl)),
  )
  handler-IsAsked now got (evt_pubrec result message_id) c = tt
  handler-IsAsked now got (evt_pubrel message_id) c = tt
  handler-IsAsked now got (evt_pubcomp result message_id) c = tt
  handler-IsAsked now got evt_pingresp c = tt

  handle_calls-IsAsked :
      (calls : List (Call Net read_payload)) (c : Client Net read_payload)
      → All (λ call. IsAsked call.evt (handle_calls Net read_payload calls c).acks) calls
  unfolding handle_calls
  handle_calls-IsAsked [] c = tt
  handle_calls-IsAsked (call ∷ rest) c =
      let before : Client Net read_payload = record c {
        rx = drop call.taken c.rx;
        chan = call.status;
      } in
      (
        kept-IsAsked rest call.evt _ (handler-IsAsked call.now call.got call.evt before),
        handle_calls-IsAsked rest _,
      )

  -- While nobody takes a message from a full queue, every message that comes is lost, and the queue
  -- stays as it is; yet the handler asks the library to acknowledge each PUBLISH packet of quality
  -- of service 1, and to report the receipt of each one of quality of service 2.
  pub handle_calls_dropped :
      (calls : List (Call Net read_payload)) (c : Client Net read_payload)
      → queue_size ≤ length c.rx
      → All (IsUntaken Net read_payload) calls
      → ((handle_calls Net read_payload calls c).rx ≡ c.rx)
        × All (λ call. IsAsked call.evt (handle_calls Net read_payload calls c).acks) calls
  handle_calls_dropped calls c full untaken =
      (rx-handle_calls Net read_payload calls c full untaken, handle_calls-IsAsked calls c)
