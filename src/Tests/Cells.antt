-- ===== src/Tests/Cells.antt =====
-- The settings of the MQTT client kept in memory.
use cedar_switch_3i3o_power.Common.{◌≡◌, ◌≢◌, refl, pos}
use cedar_switch_3i3o_power.Settings.{Settings}
use cedar_switch_3i3o_power.Web.MqttSettings.{
  MqttConfig, MqttKey, mqtt_enabled, mqtt_host, mqtt_port, mqtt_user, mqtt_pass, MqttValue,
}

-- The settings in memory.
abbrev pub read_cell : (k : MqttKey) → MqttConfig → MqttValue k
read_cell mqtt_enabled s = s.enabled
read_cell mqtt_host s = s.host
read_cell mqtt_port s = s.port
read_cell mqtt_user s = s.user
read_cell mqtt_pass s = s.pass

abbrev pub write_cell : (k : MqttKey) → MqttValue k → MqttConfig → MqttConfig
write_cell mqtt_enabled v s = record s { enabled = v }
write_cell mqtt_host v s = record s { host = v }
write_cell mqtt_port v s = record s { port = v }
write_cell mqtt_user v s = record s { user = v }
write_cell mqtt_pass v s = record s { pass = v }

pub read-write_cell :
    (k : MqttKey) (v : MqttValue k) (s : MqttConfig) → read_cell k (write_cell k v s) ≡ v
read-write_cell mqtt_enabled v s = refl
read-write_cell mqtt_host v s = refl
read-write_cell mqtt_port v s = refl
read-write_cell mqtt_user v s = refl
read-write_cell mqtt_pass v s = refl

pub read-write_cell_ne :
    (k j : MqttKey) (v : MqttValue k) (s : MqttConfig)
    → j ≢ k
    → read_cell j (write_cell k v s) ≡ read_cell j s
read-write_cell_ne mqtt_enabled mqtt_enabled v s ne = absurd (ne refl)
read-write_cell_ne mqtt_enabled mqtt_host v s ne = refl
read-write_cell_ne mqtt_enabled mqtt_port v s ne = refl
read-write_cell_ne mqtt_enabled mqtt_user v s ne = refl
read-write_cell_ne mqtt_enabled mqtt_pass v s ne = refl
read-write_cell_ne mqtt_host mqtt_enabled v s ne = refl
read-write_cell_ne mqtt_host mqtt_host v s ne = absurd (ne refl)
read-write_cell_ne mqtt_host mqtt_port v s ne = refl
read-write_cell_ne mqtt_host mqtt_user v s ne = refl
read-write_cell_ne mqtt_host mqtt_pass v s ne = refl
read-write_cell_ne mqtt_port mqtt_enabled v s ne = refl
read-write_cell_ne mqtt_port mqtt_host v s ne = refl
read-write_cell_ne mqtt_port mqtt_port v s ne = absurd (ne refl)
read-write_cell_ne mqtt_port mqtt_user v s ne = refl
read-write_cell_ne mqtt_port mqtt_pass v s ne = refl
read-write_cell_ne mqtt_user mqtt_enabled v s ne = refl
read-write_cell_ne mqtt_user mqtt_host v s ne = refl
read-write_cell_ne mqtt_user mqtt_port v s ne = refl
read-write_cell_ne mqtt_user mqtt_user v s ne = absurd (ne refl)
read-write_cell_ne mqtt_user mqtt_pass v s ne = refl
read-write_cell_ne mqtt_pass mqtt_enabled v s ne = refl
read-write_cell_ne mqtt_pass mqtt_host v s ne = refl
read-write_cell_ne mqtt_pass mqtt_port v s ne = refl
read-write_cell_ne mqtt_pass mqtt_user v s ne = refl
read-write_cell_ne mqtt_pass mqtt_pass v s ne = absurd (ne refl)

abbrev pub five_cells : Settings MqttKey MqttValue
five_cells = record {
  Store = MqttConfig;
  load = λ k buffer s. (pos 1, read_cell k s);
  save = λ k v s. (pos 0, write_cell k v s);
  load-save = λ k v buffer s h. (refl, read-write_cell k v s);
  load-save_ne = λ k j v buffer s ne i. (pos 1, read-write_cell_ne k j v s ne i);
}
