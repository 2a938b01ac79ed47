-- ===== src/Web/MqttSettings.antt =====
-- src/web/REST_endpoints/mqtt_settings.c: the endpoint that reads and changes the MQTT settings.
pub mod Secret
use cedar_switch_3i3o_power.Common.{
  ℕ, Bool, true, false, List, [], ◌++◌, ◌==◌, leb, if◌then◌else◌, length, take, ℤ, pos, negsuc,
  e_no_mem,
}
use cedar_switch_3i3o_power.Common.CString.{Bytes, codes, is_empty}
use cedar_switch_3i3o_power.Common.Format.{bool_text, dec}
use cedar_switch_3i3o_power.Settings.{Settings}
use cedar_switch_3i3o_power.Web.Http.{
  http_get, http_post, http_delete, http_put, Request, Response, Handled, respond, is_final,
}
use cedar_switch_3i3o_power.Web.Buffer.{
  PostBuffer, aborted, too_large, stored, receive, reset, body,
}
use cedar_switch_3i3o_power.Web.Relays.{invalid_json, format_error}
use cedar_switch_3i3o_power.Web.Status.{set_updated}

-- mqtt_settings_t, whose members `changed` and `secure` the endpoint does not use; `port` has 16
-- bits.
pub record MqttConfig : Type 0 where
  pub changed : Bool
  pub enabled : Bool
  pub secure : Bool
  pub host : Bytes
  pub port : ℕ
  pub user : Bytes
  pub pass : Bytes

-- The keys mqtt_enabled_settings to mqtt_pass_settings.
pub data MqttKey : Type 0 where
  mqtt_enabled mqtt_host mqtt_port mqtt_user mqtt_pass : MqttKey

abbrev pub MqttValue : MqttKey → Type 0
MqttValue mqtt_enabled = Bool
MqttValue mqtt_host = Bytes
MqttValue mqtt_port = ℕ
MqttValue mqtt_user = Bytes
MqttValue mqtt_pass = Bytes

abbrev pub zero_config : MqttConfig
zero_config = record {
  changed = false;
  enabled = false;
  secure = false;
  host = [];
  port = 0;
  user = [];
  pass = [];
}

-- The text of both branches, which differ in what stands for the password.
unfoldable pub mqtt_text : MqttConfig → Bytes → Bytes
mqtt_text config mask =
    codes "{\"enabled\": "
    ++ (bool_text config.enabled
        ++ (codes ", \"host\": \""
            ++ (config.host
                ++ (codes "\", \"port\": "
                    ++ (dec config.port
                        ++ (codes ", \"user\": \""
                            ++ (config.user
                                ++ (codes "\", \"pass\": \"" ++ (mask ++ codes "\"}")))))))))

-- GET hides the password if there is a user, POST if there is a password.
abbrev pub get_mask : MqttConfig → Bytes
get_mask config = if is_empty config.user then [] else codes "*****"

abbrev pub post_mask : MqttConfig → Bytes
post_mask config = if is_empty config.pass then [] else codes "****"

module _ (st : Settings MqttKey MqttValue) where
  -- The handler's static variables, the flag `updated` and the settings.
  pub record MqttRest : Type 0 where
    pub resp_buf : Bytes
    pub post : PostBuffer
    pub updated : Bool
    pub store : st.Store

  unfoldable pub mqtt_update : MqttConfig → st.Store → st.Store
  mqtt_update config s =
      let s1 = (st.save mqtt_enabled config.enabled s).1 in
      let s2 = (st.save mqtt_host config.host s1).1 in
      let s3 = (st.save mqtt_port config.port s2).1 in
      let s4 = (st.save mqtt_user config.user s3).1 in (st.save mqtt_pass config.pass s4).1

  -- The five loads into a structure.
  abbrev pub load_into : MqttConfig → st.Store → MqttConfig
  load_into config s = record config {
    enabled = (st.load mqtt_enabled config.enabled s).1;
    host = (st.load mqtt_host config.host s).1;
    port = (st.load mqtt_port config.port s).1;
    user = (st.load mqtt_user config.user s).1;
    pass = (st.load mqtt_pass config.pass s).1;
  }

  unfoldable pub mqtt_load : st.Store → MqttConfig
  mqtt_load s = load_into zero_config s

  -- snprintk into `resp_buf`, and the answer that both branches give.
  abbrev pub answer_text : Bytes → Response → MqttRest → Handled MqttRest
  answer_text text r s =
      let s' : MqttRest = record s { resp_buf = take 255 text } in
      if leb 256 (length text)
      then record { rc = pos 0; response = respond 500 format_error r; state = s' }
      else record { rc = pos 0; response = respond 200 (take 255 text) r; state = s' }

  -- The handler loads the settings twice.
  unfoldable pub get_mqtt : Request → Response → MqttRest → Handled MqttRest
  get_mqtt req r s =
      let config = load_into (mqtt_load s.store) s.store in
      if is_final req.status
      then answer_text (mqtt_text config (get_mask config)) r s
      else record { rc = pos 0; response = r; state = s }

  -- `parse` is `json_obj_parse` with the descriptor of the five fields.
  module _ (parse : Bytes → ℤ × MqttConfig) where
    -- `ret == expected`, with BIT_MASK(5)
    abbrev pub has_five : ℤ → Bool
    has_five (pos n) = n == 31
    has_five (negsuc n) = false

    unfoldable pub finish_mqtt : Response → MqttRest → Handled MqttRest
    finish_mqtt r s =
        let parsed = parse (body s.post) in
        let s' : MqttRest = record s { post = reset s.post; updated = set_updated s.updated } in
        if has_five parsed.0
        then answer_text (mqtt_text parsed.1 (post_mask parsed.1)) r
            (record s' { store = mqtt_update parsed.1 s.store })
        else record { rc = pos 0; response = respond 400 invalid_json r; state = s' }

    unfoldable pub post_mqtt : Request → Response → MqttRest → Handled MqttRest
    post_mqtt req r s = elim (receive req.status req.chunk s.post) [
      | aborted post ↦ record { rc = pos 0; response = r; state = record s { post = post } }
      | too_large post ↦ record { rc = e_no_mem; response = r; state = record s { post = post } }
      | stored post ↦
          let s' : MqttRest = record s { post = post } in
          if is_final req.status
          then finish_mqtt r s'
          else record { rc = pos 0; response = r; state = s' }
    ]

    unfoldable pub mqtt_handler : Request → Response → MqttRest → Handled MqttRest
    mqtt_handler req r s = elim req.method [
      | http_get ↦ get_mqtt req r s
      | http_post ↦ post_mqtt req r s
      | http_delete ↦ record { rc = negsuc 0; response = r; state = s }
      | http_put ↦ record { rc = negsuc 0; response = r; state = s }
    ]
