-- ===== src/Tests/Client.antt =====
-- The task of the MQTT client at concrete inputs.
use cedar_switch_3i3o_power.Common.{
  ◌≡◌, refl, Bool, true, false, none, List, [], ◌∷◌, ◌++◌, inr, ℤ, pos, e_inval, replicate, arith,
}
use cedar_switch_3i3o_power.Common.CString.{Bytes, codes}
use cedar_switch_3i3o_power.Bus.{mqtt_stat_init}
use cedar_switch_3i3o_power.Web.MqttSettings.{MqttConfig, zero_config, MqttRest, mqtt_handler}
use cedar_switch_3i3o_power.Mqtt.Queue.{MqttMsg}
use cedar_switch_3i3o_power.Mqtt.Queue.Order.{sendable}
use cedar_switch_3i3o_power.Mqtt.Setup.{
  AddrInfo, MqttThread, mqtt_task_ha, ha_task, app_mqtt_ha_client_init,
}
use cedar_switch_3i3o_power.Mqtt.Client.{Library, ClientSeen, ClientTask, client_session}
use cedar_switch_3i3o_power.Mqtt.Client.Passes.{PassSeen, mqtt_task_pass, mqtt_task_passes}
use cedar_switch_3i3o_power.Mqtt.Client.Delivery.{messages}
use cedar_switch_3i3o_power.Mqtt.Client.Complete.{task_heard, mqtt_task_order}
use cedar_switch_3i3o_power.Mqtt.Client.Settings.{ConnectsTo, broker_of, post_then_connect}
use cedar_switch_3i3o_power.Mqtt.Client.Subscribed.{client_session_refused}
use cedar_switch_3i3o_power.Tests.Login.{fresh}
use cedar_switch_3i3o_power.Tests.SafeState.{post}
use cedar_switch_3i3o_power.Tests.Cells.{five_cells}

-- A library that accepts everything, and one that refuses every subscription.
abbrev pub accepting : Library
accepting = record {
  Net = Unit {0};
  mqtt_client_init = λ net. net;
  mqtt_connect = λ config net. (pos 0, net);
  mqtt_publish = λ param net. (pos 0, net);
  mqtt_subscribe = λ list net. (pos 0, net);
  mqtt_input = λ net. (pos 0, net);
  mqtt_live = λ net. (pos 0, net);
  mqtt_disconnect = λ net. net;
}

abbrev refusing : Library
refusing = record accepting { mqtt_subscribe = λ list net. (e_inval, net) }

abbrev pub valid_text : Bytes → Bool
valid_text text = true

abbrev report_msg : MqttMsg
report_msg = record { topic = codes "a/state"; payload = codes "ON"; qos = 1; retain = false }

abbrev pub connected_seen : ClientSeen
connected_seen = record {
  got_status = true;
  status = record { seq = 3; enabled = true; connected = true };
  hw_id = inr (10 ∷ []);
  iface = none;
  random = 5;
  arrived = report_msg ∷ [];
}

abbrev pub idle : ClientTask accepting valid_text valid_text
idle = record {
  adapter = record { queue = report_msg ∷ []; next_mid = 1; net = tt };
  device = record { identifier = []; conf_ip = [] };
  status = mqtt_stat_init;
  subscribed = false;
}

abbrev found : AddrInfo
found = record {
  ai_addr = record { sa_family = 1; sin_port = []; sin_addr = 10 ∷ 0 ∷ 0 ∷ 7 ∷ [] };
  ai_addrlen = 16;
}

-- A pass that knows the broker's address, and one that does not.
abbrev pub pass_known : PassSeen
pass_known = record {
  queued = report_msg ∷ [];
  getaddrinfo = λ host family socktype. (pos 0, found);
  stack = found;
  got_pub = true;
  chan = mqtt_stat_init;
  waits = λ i. connected_seen;
  rounds = connected_seen ∷ connected_seen ∷ [];
}

abbrev pass_unknown : PassSeen
pass_unknown = record pass_known { getaddrinfo = λ host family socktype. (e_inval, found) }

abbrev three_passes : List PassSeen
three_passes = pass_unknown ∷ pass_known ∷ pass_known ∷ []

mqtt_task_order_example :
    messages (mqtt_task_passes accepting valid_text valid_text 0 zero_config three_passes idle).0
      ++ sendable
          (mqtt_task_passes accepting valid_text valid_text 0 zero_config three_passes
            idle).1.adapter.queue
    ≡ sendable (
        report_msg ∷ []
        ++ task_heard accepting valid_text valid_text 0 zero_config three_passes idle)
mqtt_task_order_example =
    mqtt_task_order accepting valid_text valid_text 0 zero_config three_passes idle

abbrev pub posted : MqttConfig
posted = record zero_config {
  enabled = true;
  host = codes "broker";
  port = 8883;
  user = codes "relay";
  pass = codes "secret";
}

abbrev parse_posted : Bytes → ℤ × MqttConfig
parse_posted text = (pos 31, posted)

abbrev cells_rest : MqttRest five_cells
cells_rest = record {
  resp_buf = [];
  post = record { buff = replicate 8 0; cursor = 0 };
  updated = false;
  store = zero_config;
}

abbrev posted_start : MqttConfig × List MqttThread
posted_start =
    app_mqtt_ha_client_init five_cells zero_config
      (mqtt_handler five_cells parse_posted post fresh cells_rest).state.store

post_then_connect_example :
    (posted_start.1 ≡ mqtt_task_ha ∷ ha_task ∷ [])
    × ConnectsTo accepting valid_text valid_text 0
        (broker_of accepting valid_text valid_text 0 posted pass_known)
        (codes "relay")
        (codes "secret")
        (mqtt_task_pass accepting valid_text valid_text 0 posted_start.0 pass_known idle).config
post_then_connect_example =
    post_then_connect accepting valid_text valid_text 0 five_cells parse_posted post fresh
      cells_rest posted zero_config pass_known idle (λ k v s. refl)
      (record { is_post = refl; is_last = refl; fits = omega arith; parsed = refl }) refl

abbrev idle_refused : ClientTask refusing valid_text valid_text
idle_refused = record {
  adapter = record { queue = report_msg ∷ []; next_mid = 1; net = tt };
  device = record { identifier = []; conf_ip = [] };
  status = mqtt_stat_init;
  subscribed = true;
}

client_session_refused_example :
    (client_session refusing valid_text valid_text true mqtt_stat_init
      (λ i. connected_seen)
      (connected_seen ∷ connected_seen ∷ [])
      idle_refused).1.published
    ≡ []
client_session_refused_example =
    client_session_refused refusing valid_text valid_text true mqtt_stat_init (λ i. connected_seen)
      (connected_seen ∷ connected_seen ∷ []) idle_refused (λ list net. refl)
