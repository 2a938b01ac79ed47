-- ===== src/Tests/Packet.antt =====
-- A packet of the broker on its way to the pins at a concrete input.
use cedar_switch_3i3o_power.Common.{◌≡◌, refl, true, false, none, [], ◌∷◌, get_elem?, inr, arith}
use cedar_switch_3i3o_power.Common.CString.{codes}
use cedar_switch_3i3o_power.Bus.{RelaysDefState}
use cedar_switch_3i3o_power.Io.Task.{write_relays_once, IoState, Seen, io_round}
use cedar_switch_3i3o_power.Mqtt.Device.{Device}
use cedar_switch_3i3o_power.Mqtt.Adapter.{ha_mqtt_init}
use cedar_switch_3i3o_power.Mqtt.Adapter.Subscription.{command_topic, subscribe_three}
use cedar_switch_3i3o_power.Mqtt.Events.{evt_publish, Client, mqtt_evt_handler}
use cedar_switch_3i3o_power.Mqtt.Task.{TaskRound, ha_round}
use cedar_switch_3i3o_power.Mqtt.Task.Bits.{with_relay}
use cedar_switch_3i3o_power.Mqtt.Packet.{packet_drives_pins}
use cedar_switch_3i3o_power.Tests.HomeAssistant.{
  box, hw_id, is_any, online, undefined_shift, chan_before, switching, knowing,
}
use cedar_switch_3i3o_power.Tests.Events.{one_byte, slow, fresh}

-- The device after its initialisation.
abbrev ready : Device
ready = (ha_mqtt_init is_any is_any (inr hw_id) none box).1

-- A message stands in the queue already.
abbrev filled : Client slow.Net one_byte
filled = record fresh {
  rx = record { topic = codes "t"; payload = codes "p"; qos = 0; retain = false } ∷ [];
}

abbrev after_packet : Client slow.Net one_byte
after_packet =
    mqtt_evt_handler slow.Net one_byte 9 true
      (evt_publish (command_topic ready 2).topic 2 1 false 7) filled

abbrev taking : TaskRound
taking = record switching { incoming = get_elem? after_packet.rx 1 }

abbrev seen_switched : Seen
seen_switched = record {
  got_outputs = true;
  outputs = (ha_round [] undefined_shift ready taking chan_before knowing).chan;
  got_status = true;
  status = online;
}

abbrev relays_off : IoState
relays_off = record { applied_state = 0; mqtt_status_msg = online; pins = write_relays_once 0 }

abbrev all_safe : RelaysDefState
all_safe = record { enabled = true; relay1 = false; relay2 = false; relay3 = true }

packet_drives_pins_example :
    (io_round all_safe seen_switched relays_off).pins ≡ with_relay 2 true (write_relays_once 1)
packet_drives_pins_example =
    packet_drives_pins slow is_any is_any [] undefined_shift hw_id none box
      (command_topic ready 1 ∷ command_topic ready 2 ∷ command_topic ready 3 ∷ [])
      (command_topic ready 2) 2 true 9 1 7 true false filled taking chan_before knowing all_safe
      seen_switched relays_off (omega arith) (omega arith) (omega arith, (omega arith, tt))
      (omega arith) (omega arith) (subscribe_three ready) refl refl (omega arith) refl (omega arith)
      refl refl (λ m. refl) refl refl refl refl refl
