-- ===== src/Tests/HomeAssistant.antt =====
-- The commands and the reports of the MQTT client at concrete inputs.
use cedar_switch_3i3o_power.Common.{
  ℕ, ◌<◌, ◌≡◌, refl, Bool, true, false, none, some, List, [], ◌∷◌, length, get_elem?, inr, arith,
  pos,
}
use cedar_switch_3i3o_power.Common.CString.{Bytes, codes}
use cedar_switch_3i3o_power.Bus.{OutputsMsg, MqttStatus}
use cedar_switch_3i3o_power.Mqtt.Device.{output_device, Device, hex_bytes}
use cedar_switch_3i3o_power.Mqtt.Topics.{generate_command_topik}
use cedar_switch_3i3o_power.Mqtt.Topics.Shape.{status_topic, io_type}
use cedar_switch_3i3o_power.Mqtt.Payloads.{get_config_payload_string}
use cedar_switch_3i3o_power.Mqtt.Payloads.Announce.{announcement_topics}
use cedar_switch_3i3o_power.Mqtt.Payloads.Parts.{Contains, named_topic}
use cedar_switch_3i3o_power.Mqtt.Incoming.{Command, parse_incoming_message}
use cedar_switch_3i3o_power.Mqtt.Incoming.Commands.{NoSlash}
use cedar_switch_3i3o_power.Mqtt.Incoming.RoundTrip.{command_round_trip}
use cedar_switch_3i3o_power.Mqtt.Adapter.{SubTopic, ha_mqtt_init, subscribe_loop}
use cedar_switch_3i3o_power.Mqtt.Adapter.Subscription.{subscription_commands}
use cedar_switch_3i3o_power.Mqtt.Report.{watch_init}
use cedar_switch_3i3o_power.Mqtt.Task.{Outcome, HaState, TaskRound, ha_rounds}
use cedar_switch_3i3o_power.Mqtt.Queue.{MqttMsg}
use cedar_switch_3i3o_power.Mqtt.Task.Shown.{after}
use cedar_switch_3i3o_power.Mqtt.Task.Session.{wait_connected, SessionSeen, ha_sessions}
use cedar_switch_3i3o_power.Mqtt.Task.Informed.{named}
use cedar_switch_3i3o_power.Mqtt.Task.Lasting.{ha_sessions_informs}
use cedar_switch_3i3o_power.Mqtt.Task.Pass.{IsInformed}

abbrev pub box : Device
box = record { identifier = codes "0A1B"; conf_ip = codes "192.168.1.7" }

box-NoSlash : NoSlash box.identifier
box-NoSlash = (omega arith, (omega arith, (omega arith, (omega arith, tt))))

abbrev blank : Command
blank = record { dev_type = output_device; sensor_number = 0; state_num = 0 }

command_round_trip_example :
    parse_incoming_message (codes "OFF") (generate_command_topik box 128 output_device 2 []).1 blank
    ≡ (pos 0, record { dev_type = output_device; sensor_number = 2; state_num = 0 })
command_round_trip_example =
    command_round_trip box 2 false [] blank (omega arith) box-NoSlash (omega arith)

abbrev pub is_any : Bytes → Bool
is_any text = true

subscription_commands_example :
    (topics : List SubTopic) × (t : SubTopic) × (subscribe_loop
        (ha_mqtt_init is_any is_any (inr (10 ∷ 27 ∷ [])) none box).1
        3
        0
      ≡ inr topics)
    × (get_elem? topics 2 ≡ some t)
    × (parse_incoming_message (codes "ON") t.topic blank
        ≡ (pos 0, record { dev_type = output_device; sensor_number = 3; state_num = 1 }))
subscription_commands_example =
    subscription_commands is_any is_any (10 ∷ 27 ∷ []) none box 3 true blank (omega arith)
      (omega arith) (omega arith, (omega arith, tt)) (omega arith) (omega arith)

announcement_topics_example :
    (length (get_config_payload_string box 700 (io_type true) 1).1 < 700)
    × Contains
        (get_config_payload_string box 700 (io_type true) 1).1
        (named_topic (codes "\"state_topic\" :\"") (status_topic box true 1))
    × (true ≡ true
        → Contains (get_config_payload_string box 700 (io_type true) 1).1 (
            named_topic
              (codes "\"command_topic\" : \"")
              (generate_command_topik box 128 output_device 1 []).1))
announcement_topics_example =
    announcement_topics box true 1 (omega arith) (omega arith) (omega arith) (omega arith)

abbrev pub hw_id : List ℕ
hw_id = 10 ∷ 27 ∷ []

abbrev pub online : MqttStatus
online = record { seq = 9; enabled = true; connected = true }

abbrev pub start : HaState
start = record { status = online; inputs = watch_init; outputs = watch_init }

abbrev pub undefined_shift : ℕ → ℕ
undefined_shift n = 0

abbrev pub chan_before : OutputsMsg
chan_before = record { seq = 4; state = 1 }

-- Relay 2 is to be switched on, while relay 1 is on.
abbrev switch_on : MqttMsg
switch_on = record {
  topic = (generate_command_topik box 128 output_device 2 []).1;
  payload = codes "ON";
  qos = 2;
  retain = false;
}

abbrev pub switching : TaskRound
switching = record {
  now = 12;
  got_status = true;
  status = online;
  got_inputs = true;
  inputs = record { seq = 1; state = 5 };
  incoming = some switch_on;
  unset = blank;
  got_pub = true;
  others = λ c. c;
  got_outputs = true;
}

abbrev pub knowing : HaState
knowing = record start { outputs = record watch_init { current = chan_before } }

abbrev pub lost_round : TaskRound
lost_round = record switching { status = record online { connected = false } }

abbrev pub unknown : Bytes → Bytes
unknown topic = []

-- A pass that waits twice, and one in which the address is missing.
abbrev pub pass_seen : SessionSeen
pass_seen = record {
  hw_id = inr hw_id;
  iface = none;
  waits = (false, online) ∷ (true, online) ∷ [];
  others = λ c. c;
  announced = λ i. (true, online);
  rounds = switching ∷ lost_round ∷ [];
}

abbrev pub any_text : Bytes → Bool
any_text text = true

pub wait_ends : (wait_connected pass_seen.waits start.status).0 ≡ true
unfolding wait_connected
wait_ends = refl

ha_sessions_informs_example :
    IsInformed [] undefined_shift any_text any_text
      (named (hex_bytes hw_id))
      (after [] undefined_shift
        (named (hex_bytes hw_id))
        (ha_sessions [] undefined_shift any_text any_text
          (pass_seen ∷ pass_seen ∷ [])
          box
          chan_before
          start).sent
        unknown)
      (ha_sessions [] undefined_shift any_text any_text
        (pass_seen ∷ pass_seen ∷ [])
        box
        chan_before
        start).state
ha_sessions_informs_example =
    ha_sessions_informs [] undefined_shift any_text any_text hw_id (omega arith) (omega arith)
      pass_seen switching (lost_round ∷ []) (pass_seen ∷ []) box chan_before start unknown
      (refl, (refl, tt)) wait_ends refl (refl, refl, (omega arith, omega arith))

-- The next round after more than 500 seconds.
abbrev later_round : TaskRound
later_round = record switching { now = 520; incoming = none }

abbrev ran : Outcome
ran = ha_rounds [] undefined_shift box (switching ∷ []) chan_before start

abbrev waiting : List MqttMsg
waiting = switch_on ∷ []
