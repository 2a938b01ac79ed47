-- ===== src/Tests/Settings.antt =====
-- The endpoints of the MQTT settings and of directories at concrete inputs.
use cedar_switch_3i3o_power.Common.{
  ◌≡◌, refl, ◌≢◌, true, false, List, [], ◌∷◌, replicate, ℤ, pos, negsuc, is_zero, ◌⊎◌,
}
use cedar_switch_3i3o_power.Common.CString.{Bytes, codes}
use cedar_switch_3i3o_power.Settings.{Settings}
use cedar_switch_3i3o_power.Web.MqttSettings.{
  MqttConfig, MqttKey, mqtt_enabled, mqtt_host, mqtt_port, mqtt_user, mqtt_pass, MqttValue,
  zero_config, MqttRest, mqtt_handler,
}
use cedar_switch_3i3o_power.Web.MqttSettings.Secret.{with_pass, get_hides_pass}
use cedar_switch_3i3o_power.Web.Upload.{abs_path, webui_root}
use cedar_switch_3i3o_power.Web.Mkdir.{MkdirRest, mkdir_web_ui_files, finish_mkdir, mkdir_handler}
use cedar_switch_3i3o_power.Web.Buffer.{receive}
use cedar_switch_3i3o_power.Web.Mkdir.Unchecked.{Reaches, IsMade, IsRefused, mkdir_unchecked}
use cedar_switch_3i3o_power.Tests.Login.{fresh}
use cedar_switch_3i3o_power.Tests.SafeState.{post, get}

-- The settings with one cell, that of the password.
abbrev read_pass : (k : MqttKey) → MqttValue k → Bytes → MqttValue k
read_pass mqtt_enabled buffer s = true
read_pass mqtt_host buffer s = codes "broker"
read_pass mqtt_port buffer s = 1883
read_pass mqtt_user buffer s = codes "relay"
read_pass mqtt_pass buffer s = s

abbrev save_pass : (k : MqttKey) → MqttValue k → Bytes → ℤ × Bytes
save_pass mqtt_enabled v s = (negsuc 4, s)
save_pass mqtt_host v s = (negsuc 4, s)
save_pass mqtt_port v s = (negsuc 4, s)
save_pass mqtt_user v s = (negsuc 4, s)
save_pass mqtt_pass v s = (pos 0, v)

load-save_pass :
    (k : MqttKey) (v buffer : MqttValue k) (s : Bytes)
    → is_zero (save_pass k v s).0 ≡ true
    → read_pass k buffer (save_pass k v s).1 ≡ v
load-save_pass mqtt_enabled v buffer s h = cc
load-save_pass mqtt_host v buffer s h = cc
load-save_pass mqtt_port v buffer s h = cc
load-save_pass mqtt_user v buffer s h = cc
load-save_pass mqtt_pass v buffer s h = refl

load-save_pass_ne :
    (k j : MqttKey) (v : MqttValue k) (buffer : MqttValue j) (s : Bytes)
    → j ≢ k
    → read_pass j buffer (save_pass k v s).1 ≡ read_pass j buffer s
load-save_pass_ne mqtt_enabled j v buffer s ne = refl
load-save_pass_ne mqtt_host j v buffer s ne = refl
load-save_pass_ne mqtt_port j v buffer s ne = refl
load-save_pass_ne mqtt_user j v buffer s ne = refl
load-save_pass_ne mqtt_pass mqtt_enabled v buffer s ne = refl
load-save_pass_ne mqtt_pass mqtt_host v buffer s ne = refl
load-save_pass_ne mqtt_pass mqtt_port v buffer s ne = refl
load-save_pass_ne mqtt_pass mqtt_user v buffer s ne = refl
load-save_pass_ne mqtt_pass mqtt_pass v buffer s ne = absurd (ne refl)

abbrev one_cell : Settings MqttKey MqttValue
one_cell = record {
  Store = Bytes;
  load = λ k buffer s. (pos 1, read_pass k buffer s);
  save = save_pass;
  load-save = λ k v buffer s h. (refl, load-save_pass k v buffer s h);
  load-save_ne = λ k j v buffer s ne i. (pos 1, load-save_pass_ne k j v buffer s ne i);
}

abbrev mqtt_rest : MqttRest one_cell
mqtt_rest = record {
  resp_buf = [];
  post = record { buff = replicate 8 0; cursor = 0 };
  updated = false;
  store = codes "secret";
}

abbrev parse_mqtt : Bytes → ℤ × MqttConfig
parse_mqtt text = (pos 31, zero_config)

get_hides_pass_example :
    (mqtt_handler one_cell parse_mqtt get fresh
      (with_pass one_cell (codes "other") mqtt_rest)).response
    ≡ (mqtt_handler one_cell parse_mqtt get fresh mqtt_rest).response
get_hides_pass_example = get_hides_pass one_cell parse_mqtt get fresh mqtt_rest (codes "other") refl

-- The disk is the list of the directories that were created.
abbrev mkdir_logged : Bytes → List Bytes → ℤ × List Bytes
mkdir_logged path d = (pos 0, path ∷ d)

abbrev parse_path : Bytes → ℤ × Bytes
parse_path text = (pos 1, codes "../evil")

abbrev mkdir_rest : MkdirRest (List Bytes) mkdir_logged
mkdir_rest = record { post = record { buff = replicate 8 0; cursor = 0 }; disk = [] }

mkdir_unchecked_example :
    ((path : Bytes) × Reaches (List Bytes) mkdir_logged parse_path post mkdir_rest path
      × IsMade
          (List Bytes)
          mkdir_logged
          parse_path
          path
          mkdir_rest
          (mkdir_handler (List Bytes) mkdir_logged parse_path post fresh mkdir_rest))
    ⊎ (((path : Bytes) → ¬ Reaches (List Bytes) mkdir_logged parse_path post mkdir_rest path)
        × IsRefused
            (List Bytes)
            mkdir_logged
            parse_path
            fresh
            mkdir_rest
            (mkdir_handler (List Bytes) mkdir_logged parse_path post fresh mkdir_rest))
mkdir_unchecked_example = mkdir_unchecked (List Bytes) mkdir_logged parse_path post fresh mkdir_rest

-- It is the first case: the path leaves the base directory.
evil_made :
    (mkdir_handler (List Bytes) mkdir_logged parse_path post fresh mkdir_rest).state.disk
    ≡ abs_path webui_root (codes "../evil") ∷ []
unfolding mkdir_handler finish_mkdir mkdir_web_ui_files receive
evil_made = refl
