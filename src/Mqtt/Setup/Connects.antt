-- ===== src/Mqtt/Setup/Connects.antt =====
-- The settings that a POST saves (src/web/REST_endpoints/mqtt_settings.c) are those that the client
-- loads at the next start (src/mqtt/ha_mqtt.c).
use cedar_switch_3i3o_power.Common.{
  ◌+◌, ◌≤◌, ◌≡◌, ◌≢◌, true, ◌++◌, length, ℤ, pos, is_zero, if◌then◌else◌, [], ◌∷◌, arith, ap, ◌∙◌,
}
use cedar_switch_3i3o_power.Common.CString.{Bytes}
use cedar_switch_3i3o_power.Settings.{Settings}
use cedar_switch_3i3o_power.Web.Http.{http_post, data_final, Request, Response}
use cedar_switch_3i3o_power.Web.Buffer.{stored, receive, body}
use cedar_switch_3i3o_power.Web.Buffer.Collect.{receive_final}
use cedar_switch_3i3o_power.Web.MqttSettings.{
  MqttConfig, MqttKey, mqtt_enabled, mqtt_host, mqtt_port, mqtt_user, mqtt_pass, MqttValue,
  MqttRest, mqtt_update, load_into, finish_mqtt, mqtt_handler, post_mqtt,
}
use cedar_switch_3i3o_power.Mqtt.Setup.{mqtt_task_ha, ha_task, app_mqtt_ha_client_init}

module _ (st : Settings MqttKey MqttValue) where
  -- A load of the key finds the value, whatever is in the buffer.
  abbrev pub Holds : (k : MqttKey) → MqttValue k → st.Store → Type 0
  Holds k v s = (buffer : MqttValue k) → (st.load k buffer s).1 ≡ v

  -- Where no save fails.
  abbrev pub Accepts : Type 0
  Accepts = (k : MqttKey) (v : MqttValue k) (s : st.Store) → is_zero (st.save k v s).0 ≡ true

  -- The settings hold these five values.
  pub record HoldsConfig (config : MqttConfig) (s : st.Store) : Type 0 where
    pub enabled : Holds mqtt_enabled config.enabled s
    pub host : Holds mqtt_host config.host s
    pub port : Holds mqtt_port config.port s
    pub user : Holds mqtt_user config.user s
    pub pass : Holds mqtt_pass config.pass s

  Holds-save :
      (k : MqttKey) (v : MqttValue k) (s : st.Store) → Accepts → Holds k v (st.save k v s).1
  Holds-save k v s ok buffer = (st.load-save k v buffer s (ok k v s)).1

  Holds-save_other :
      (k j : MqttKey) (v : MqttValue k) (w : MqttValue j) (s : st.Store)
      → j ≢ k
      → Holds j w s
      → Holds j w (st.save k v s).1
  Holds-save_other k j v w s ne h buffer =
      ap (λ l. l.1) (st.load-save_ne k j v buffer s ne) ∙ h buffer

  update-HoldsConfig :
      (config : MqttConfig) (s : st.Store) → Accepts → HoldsConfig config (mqtt_update st config s)
  unfolding mqtt_update
  update-HoldsConfig c s ok =
      let s1 = (st.save mqtt_enabled c.enabled s).1 in
      let s2 = (st.save mqtt_host c.host s1).1 in
      let s3 = (st.save mqtt_port c.port s2).1 in
      let s4 = (st.save mqtt_user c.user s3).1 in
      let e1 = Holds-save mqtt_enabled c.enabled s ok in
      let e2 = Holds-save_other mqtt_host mqtt_enabled c.host c.enabled s1 (λ e. cc) e1 in
      let e3 = Holds-save_other mqtt_port mqtt_enabled c.port c.enabled s2 (λ e. cc) e2 in
      let e4 = Holds-save_other mqtt_user mqtt_enabled c.user c.enabled s3 (λ e. cc) e3 in
      let h2 = Holds-save mqtt_host c.host s1 ok in
      let h3 = Holds-save_other mqtt_port mqtt_host c.port c.host s2 (λ e. cc) h2 in
      let h4 = Holds-save_other mqtt_user mqtt_host c.user c.host s3 (λ e. cc) h3 in
      let p3 = Holds-save mqtt_port c.port s2 ok in
      let p4 = Holds-save_other mqtt_user mqtt_port c.user c.port s3 (λ e. cc) p3 in
      let u4 = Holds-save mqtt_user c.user s3 ok in
      record {
        enabled = Holds-save_other mqtt_pass mqtt_enabled c.pass c.enabled s4 (λ e. cc) e4;
        host = Holds-save_other mqtt_pass mqtt_host c.pass c.host s4 (λ e. cc) h4;
        port = Holds-save_other mqtt_pass mqtt_port c.pass c.port s4 (λ e. cc) p4;
        user = Holds-save_other mqtt_pass mqtt_user c.pass c.user s4 (λ e. cc) u4;
        pass = Holds-save mqtt_pass c.pass s4 ok;
      }

  -- The variable after the load: the settings, with its two unused members as they were.
  abbrev pub loaded : MqttConfig → MqttConfig → MqttConfig
  loaded variable config = record config { changed = variable.changed; secure = variable.secure }

  load_into-HoldsConfig :
      (variable config : MqttConfig) (s : st.Store)
      → HoldsConfig config s
      → load_into st variable s ≡ loaded variable config
  load_into-HoldsConfig variable config s h i = record variable {
    enabled = h.enabled variable.enabled i;
    host = h.host variable.host i;
    port = h.port variable.port i;
    user = h.user variable.user i;
    pass = h.pass variable.pass i;
  }

  module _ (parse : Bytes → ℤ × MqttConfig) where
    -- A final chunk that completes a body with all five members.
    pub record CompletesConfig (req : Request) (s : MqttRest st) (config : MqttConfig)
        : Type 0 where
      pub is_post : req.method ≡ http_post
      pub is_last : req.status ≡ data_final
      pub fits : s.post.cursor + length req.chunk ≤ length s.post.buff
      pub parsed : parse (body s.post ++ req.chunk) ≡ (pos 31, config)

    post-CompletesConfig :
        (req : Request) (r : Response) (s : MqttRest st) (config : MqttConfig)
        → CompletesConfig req s config
        → (mqtt_handler st parse req r s).state.store ≡ mqtt_update st config s.store
    unfolding mqtt_handler post_mqtt finish_mqtt
    post-CompletesConfig req r s config c =
        let (b', e, read, _, _) = receive_final req.chunk s.post c.fits in
        let received : receive req.status req.chunk s.post ≡ stored b' = rw (c.is_last) e in
        let answer : parse (body b') ≡ (pos 31, config) = rw (read) c.parsed in
        ground (arith, c.is_post, c.is_last)

    -- The next start of the client loads them, whatever it held, and starts both tasks exactly if
    -- the body enables MQTT.
    pub post_then_start :
        (req : Request) (r : Response) (s : MqttRest st) (config variable : MqttConfig)
        → Accepts
        → CompletesConfig req s config
        → app_mqtt_ha_client_init st variable (mqtt_handler st parse req r s).state.store
          ≡ (loaded variable config, if config.enabled then mqtt_task_ha ∷ ha_task ∷ [] else [])
    unfolding app_mqtt_ha_client_init
    post_then_start req r s config variable ok c =
        let held = update-HoldsConfig config s.store ok in
        let sett = load_into-HoldsConfig variable config _ held in
        rw (post-CompletesConfig req r s config c)
          (ap (λ m. (m, if m.enabled then mqtt_task_ha ∷ ha_task ∷ [] else [])) sett)
