-- ===== src/Tests/Events.antt =====
-- The packets of the MQTT client at concrete inputs.
use cedar_switch_3i3o_power.Common.{
  ℕ, zero, suc, ◌<◌, ◌≤◌, ◌≡◌, refl, ap, true, false, List, [], ◌∷◌, ◌++◌, arith, length, take,
  replicate, pos, All,
}
use cedar_switch_3i3o_power.Common.CString.{Bytes, codes}
use cedar_switch_3i3o_power.Bus.{mqtt_stat_init, RelaysDefState}
use cedar_switch_3i3o_power.Mqtt.Queue.{MqttMsg}
use cedar_switch_3i3o_power.Mqtt.Events.{
  Got, failed, bytes, read_publish, evt_connack, evt_disconnect, evt_publish, evt_pubrel, Client,
  mqtt_evt_handler, Call, handle_calls,
}
use cedar_switch_3i3o_power.Mqtt.Events.Payload.{Reader, read_publish_all}
use cedar_switch_3i3o_power.Mqtt.Events.Pins.{link_drives_pins}
use cedar_switch_3i3o_power.Io.Task.{write_relays_once, IoState, Seen, io_round}
use cedar_switch_3i3o_power.Mqtt.Events.Full.{IsAsked, handle_calls_dropped}
use cedar_switch_3i3o_power.Mqtt.Events.Bounds.{IsHonest, IsInBounds, handle_calls-IsInBounds}

-- A library that gives one byte at a time.
abbrev pub one_byte : ℕ → Bytes → Got × Bytes
one_byte zero net = (bytes [], net)
one_byte (suc n) [] = (bytes [], [])
one_byte (suc n) (c ∷ cs) = (bytes (c ∷ []), cs)

pub one_byte-pending :
    (n : ℕ) (net : Bytes)
    → 0 < n
    → 0 < length net
    → (c : ℕ) × (cs : Bytes) × ((one_byte n net).0 ≡ bytes (c ∷ cs))
      × (length (c ∷ cs) ≤ n)
      × (net ≡ (c ∷ cs) ++ (one_byte n net).1)
one_byte-pending zero net h k = absurd (omega arith)
one_byte-pending (suc n) [] h k = absurd (omega arith)
one_byte-pending (suc n) (c ∷ cs) h k = (c, [], refl, omega arith, refl)

abbrev pub slow : Reader
slow = record {
  Net = Bytes;
  read_payload = one_byte;
  pending = λ net. net;
  read-pending = one_byte-pending;
}

abbrev long_payload : Bytes
long_payload = replicate 705 b'x'

read_publish_all_example :
    ((read_publish Bytes one_byte 705 long_payload).0 ≡ take 699 long_payload)
    × ((read_publish Bytes one_byte 705 long_payload).1 ≡ [])
read_publish_all_example = read_publish_all slow long_payload

abbrev got_size : Got → ℕ
got_size failed = 0
got_size (bytes cs) = length cs

one_byte-IsHonest : IsHonest Bytes one_byte
one_byte-IsHonest zero net cs e = omega (arith, ap got_size e)
one_byte-IsHonest (suc n) [] cs e = omega (arith, ap got_size e)
one_byte-IsHonest (suc n) (c ∷ cs) ds e = omega (arith, ap got_size e)

abbrev pub fresh : Client Bytes one_byte
fresh = record {
  net = codes "ON";
  rx = [];
  conn_stat = record { seq = 0; enabled = true; connected = false };
  chan = mqtt_stat_init;
  acks = [];
}

abbrev packets : List (Call Bytes one_byte)
packets =
    record { now = 5; got = true; evt = evt_connack (pos 0); taken = 0; status = mqtt_stat_init }
    ∷ record {
      now = 9;
      got = false;
      evt = evt_publish (codes "cedar_0A1B/switch1/set") 2 1 false 7;
      taken = 0;
      status = mqtt_stat_init;
    }
    ∷ []

abbrev def_safe : RelaysDefState
def_safe = record { enabled = true; relay1 = false; relay2 = true; relay3 = false }

-- The status after the connection was ended, and packets that come nevertheless.
abbrev cut : Client Bytes one_byte
cut = mqtt_evt_handler Bytes one_byte 5 true evt_disconnect fresh

abbrev stragglers : List (Call Bytes one_byte)
stragglers =
    record { now = 7; got = true; evt = evt_pubrel 8; taken = 0; status = cut.chan }
    ∷ record {
      now = 9;
      got = false;
      evt = evt_publish (codes "cedar_0A1B/switch1/set") 2 1 false 7;
      taken = 1;
      status = cut.chan;
    }
    ∷ []

abbrev seen_cut : Seen
seen_cut = record {
  got_outputs = true;
  outputs = record { seq = 3; state = 5 };
  got_status = true;
  status = (handle_calls Bytes one_byte stragglers cut).chan;
}

-- Relays 1 and 3 are on.
abbrev switched : IoState
switched = record {
  applied_state = 5;
  mqtt_status_msg = record { seq = 4; enabled = true; connected = true };
  pins = write_relays_once 5;
}

link_drives_pins_example :
    (io_round def_safe seen_cut switched).pins
    ≡ record { relay1 = false; relay2 = true; relay3 = false }
link_drives_pins_example =
    link_drives_pins Bytes one_byte 5 false stragglers fresh def_safe seen_cut switched
      ((refl, refl), ((refl, refl), tt)) refl refl refl refl refl refl

handle_calls-IsInBounds_example :
    IsInBounds Bytes one_byte (handle_calls Bytes one_byte packets fresh).rx
handle_calls-IsInBounds_example =
    handle_calls-IsInBounds Bytes one_byte packets fresh one_byte-IsHonest (omega arith, tt)

abbrev some_msg : MqttMsg
some_msg = record { topic = codes "t"; payload = codes "p"; qos = 0; retain = false }

abbrev busy : Client Bytes one_byte
busy = record fresh { rx = replicate 16 some_msg }

-- A PUBLISH of each quality of service, and the release of one.
abbrev crowd : List (Call Bytes one_byte)
crowd =
    record {
      now = 5;
      got = true;
      evt = evt_publish (codes "t") 2 1 false 7;
      taken = 0;
      status = mqtt_stat_init;
    }
    ∷ record {
      now = 6;
      got = true;
      evt = evt_publish (codes "t") 2 2 false 8;
      taken = 0;
      status = mqtt_stat_init;
    }
    ∷ record { now = 7; got = true; evt = evt_pubrel 8; taken = 0; status = mqtt_stat_init }
    ∷ []

handle_calls_dropped_example :
    ((handle_calls Bytes one_byte crowd busy).rx ≡ busy.rx)
    × All
        (λ call. IsAsked Bytes one_byte call.evt (handle_calls Bytes one_byte crowd busy).acks)
        crowd
handle_calls_dropped_example =
    handle_calls_dropped Bytes one_byte crowd busy (omega arith) (refl, (refl, (refl, tt)))
