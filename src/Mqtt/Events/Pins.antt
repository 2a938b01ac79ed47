-- ===== src/Mqtt/Events/Pins.antt =====
-- From the connection that `mqtt_evt_handler` (src/mqtt/ha_mqtt_callback.c) publishes through the status
-- channel to the pins of `io_task` (src/io/io.c).
use cedar_switch_3i3o_power.Common.{
  ℕ, zero, suc, ◌≡◌, refl, ◌∙◌, ap, inl, inr, Bool, true, false, List, [], ◌∷◌, ◌==◌, Bool-cases,
  All, pos, negsuc, if◌then◌else◌,
}
use cedar_switch_3i3o_power.Common.CString.{Bytes}
use cedar_switch_3i3o_power.Bus.{MqttStatus, RelaysDefState}
use cedar_switch_3i3o_power.Io.Task.{write_relays_once, IoState, Seen, io_round}
use cedar_switch_3i3o_power.Io.Safety.{IsApplied, wanted, io_round_enabled}
use cedar_switch_3i3o_power.Mqtt.Events.{
  Got, Evt, evt_connack, evt_disconnect, evt_puback, evt_publish, evt_pubrec, evt_pubrel,
  evt_pubcomp, evt_pingresp, Client, set_connected, on_publish, on_pubrec, on_pubrel,
  mqtt_evt_handler, Call, handle_calls,
}

-- The packet that an accepted connection begins with, and the one that ends it.
abbrev pub link_evt : Bool → Evt
link_evt up = if up then evt_connack (pos 0) else evt_disconnect

abbrev pub is_link : Evt → Bool
is_link (evt_connack (pos zero)) = true
is_link evt_disconnect = true
is_link other = false

module _ (Net : Type 0) (read_payload : ℕ → Net → Got × Net) where
  -- A packet of another kind, before which the channel holds this status.
  abbrev pub IsOther : MqttStatus → Call Net read_payload → Type 0
  IsOther status call = (is_link call.evt ≡ false) × (call.status ≡ status)

  chan-on_publish :
      (topic : Bytes) (to_read qos message_id : ℕ) (retain : Bool) (c : Client Net read_payload)
      → (on_publish Net read_payload topic to_read qos retain message_id c).chan ≡ c.chan
  unfolding on_publish
  chan-on_publish topic to_read qos message_id retain c = elim (Bool-cases (qos == 1)) [
    | inl once ↦ rw (once) refl
    | inr other ↦ elim (Bool-cases (qos == 2)) [
      | inl twice ↦ rw (other, twice) refl
      | inr never ↦ rw (other, never) refl
    ]
  ]

  chan-handler :
      (now : ℕ) (got : Bool) (evt : Evt) (c : Client Net read_payload)
      → is_link evt ≡ false
      → (mqtt_evt_handler Net read_payload now got evt c).chan ≡ c.chan
  unfolding mqtt_evt_handler on_pubrec on_pubrel
  chan-handler now got (evt_connack (pos zero)) c other = cc
  chan-handler now got (evt_connack (pos (suc n))) c other = refl
  chan-handler now got (evt_connack (negsuc n)) c other = refl
  chan-handler now got evt_disconnect c other = cc
  chan-handler now got (evt_puback result message_id) c other = refl
  chan-handler now got (evt_publish topic to_read qos retain message_id) c other =
      chan-on_publish topic to_read qos message_id retain c
  chan-handler now got (evt_pubrec (pos zero) message_id) c other = refl
  chan-handler now got (evt_pubrec (pos (suc n)) message_id) c other = refl
  chan-handler now got (evt_pubrec (negsuc n) message_id) c other = refl
  chan-handler now got (evt_pubrel message_id) c other = refl
  chan-handler now got (evt_pubcomp result message_id) c other = refl
  chan-handler now got evt_pingresp c other = refl

  chan-handle_calls :
      (status : MqttStatus) (calls : List (Call Net read_payload)) (c : Client Net read_payload)
      → c.chan ≡ status
      → All (IsOther status) calls
      → (handle_calls Net read_payload calls c).chan ≡ status
  unfolding handle_calls
  chan-handle_calls status [] c holds others = holds
  chan-handle_calls status (call ∷ rest) c holds ((other, left), others) =
      chan-handle_calls status rest _ (chan-handler call.now call.got call.evt _ other ∙ left)
        others

  connected-link_evt :
      (now : ℕ) (up : Bool) (c : Client Net read_payload)
      → (mqtt_evt_handler Net read_payload now true (link_evt up) c).chan.connected ≡ up
  unfolding mqtt_evt_handler set_connected
  connected-link_evt now true c = refl
  connected-link_evt now false c = refl

  -- After a packet that accepts or ends the connection, and any other packets, the relay task's
  -- next round that reads both channels shows the relays of the outputs channel if the connection
  -- was accepted, and the safe state if it was ended; where the handler gets the status channel for
  -- that packet and nobody else writes it since, and MQTT and the safe state are enabled for the
  -- round.
  pub link_drives_pins :
      (now : ℕ) (up : Bool) (later : List (Call Net read_payload)) (c : Client Net read_payload)
      (def : RelaysDefState) (seen : Seen) (io : IoState)
      → let c' = mqtt_evt_handler Net read_payload now true (link_evt up) c in
        All (IsOther c'.chan) later
        → IsApplied io
        → io.mqtt_status_msg.enabled ≡ true
        → def.enabled ≡ true
        → seen.got_outputs ≡ true
        → seen.got_status ≡ true
        → seen.status ≡ (handle_calls Net read_payload later c').chan
        → (io_round def seen io).pins ≡ (
            if up
            then write_relays_once seen.outputs.state
            else record { relay1 = def.relay1; relay2 = def.relay2; relay3 = def.relay3 })
  link_drives_pins now up later c def seen io others applied on safe got gots read =
      let c' = mqtt_evt_handler Net read_payload now true (link_evt up) c in
      let link : seen.status.connected ≡ up =
        ap (λ s. s.connected) (read ∙ chan-handle_calls c'.chan later c' refl others)
        ∙ connected-link_evt now up c in
      io_round_enabled def seen io applied on safe got gots ∙ rw (wanted, link) refl
