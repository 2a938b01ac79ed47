-- ===== src/Web/MqttSettings/Secret.antt =====
-- What the MQTT settings endpoint (src/web/REST_endpoints/mqtt_settings.c) shows of the settings.
use cedar_switch_3i3o_power.Common.{
  ℕ, [], leb, if◌then◌else◌, length, take, ◌≡◌, refl, ◌∙◌, sym, ap, ◌≢◌, Bool, true, false, ℤ,
  Bool-cases, inl, inr,
}
use cedar_switch_3i3o_power.Common.CString.{Bytes}
use cedar_switch_3i3o_power.Settings.{Settings}
use cedar_switch_3i3o_power.Web.Http.{http_get, Request, Response, respond, is_final}
use cedar_switch_3i3o_power.Web.Relays.{format_error}
use cedar_switch_3i3o_power.Web.MqttSettings.{
  MqttConfig, MqttKey, mqtt_enabled, mqtt_host, mqtt_port, mqtt_user, mqtt_pass, MqttValue,
  zero_config, mqtt_text, get_mask, MqttRest, load_into, mqtt_load, get_mqtt, mqtt_handler,
}

-- The answer to a final GET from the four values that it shows.
abbrev shown : Response → Bool → Bytes → ℕ → Bytes → Response
shown r enabled host port user =
    let config : MqttConfig = record zero_config {
      enabled = enabled;
      host = host;
      port = port;
      user = user;
    } in
    let text = mqtt_text config (get_mask config) in
    if leb 256 (length text) then respond 500 format_error r else respond 200 (take 255 text) r

module _ (st : Settings MqttKey MqttValue) where
  abbrev twice : (k : MqttKey) → MqttValue k → st.Store → MqttValue k
  twice k buffer s = (st.load k (st.load k buffer s).1 s).1

  -- The settings with another password.
  abbrev pub with_pass : Bytes → MqttRest st → MqttRest st
  with_pass pass s = record s { store = (st.save mqtt_pass pass s.store).1 }

  get_mqtt_lem :
      (req : Request) (r : Response) (s : MqttRest st)
      → is_final req.status ≡ true
      → (get_mqtt st req r s).response
        ≡ shown r
            (twice mqtt_enabled false s.store)
            (twice mqtt_host [] s.store)
            (twice mqtt_port 0 s.store)
            (twice mqtt_user [] s.store)
  unfolding get_mqtt mqtt_load mqtt_text
  get_mqtt_lem req r s last =
      let config = load_into st (mqtt_load st s.store) s.store in
      rw (last) (elim (Bool-cases (leb 256 (length (mqtt_text config (get_mask config))))) [
        | inl b ↦ rw (b) refl
        | inr b ↦ rw (b) refl
      ])

  get_mqtt_more :
      (req : Request) (r : Response) (s : MqttRest st)
      → is_final req.status ≡ false
      → (get_mqtt st req r s).response ≡ r
  unfolding get_mqtt
  get_mqtt_more req r s more = rw (more) refl

  twice-with_pass :
      (k : MqttKey) (buffer : MqttValue k) (s : MqttRest st) (pass : Bytes)
      → k ≢ mqtt_pass
      → twice k buffer (with_pass pass s).store ≡ twice k buffer s.store
  twice-with_pass k buffer s pass ne =
      ap (λ b. (st.load k b (with_pass pass s).store).1)
        (ap (λ l. l.1) (st.load-save_ne mqtt_pass k pass buffer s.store ne))
      ∙ ap (λ l. l.1) (st.load-save_ne mqtt_pass k pass (st.load k buffer s.store).1 s.store ne)

  get_mqtt-with_pass :
      (req : Request) (r : Response) (s : MqttRest st) (pass : Bytes)
      → (get_mqtt st req r (with_pass pass s)).response ≡ (get_mqtt st req r s).response
  get_mqtt-with_pass req r s pass = elim (Bool-cases (is_final req.status)) [
    | inr more ↦ get_mqtt_more req r (with_pass pass s) more ∙ sym (get_mqtt_more req r s more)
    | inl last ↦
        let e = twice-with_pass mqtt_enabled false s pass (λ e. cc) in
        let h = twice-with_pass mqtt_host [] s pass (λ e. cc) in
        let p = twice-with_pass mqtt_port 0 s pass (λ e. cc) in
        let u = twice-with_pass mqtt_user [] s pass (λ e. cc) in
        get_mqtt_lem req r (with_pass pass s) last
        ∙ (λ i. shown r (e i) (h i) (p i) (u i))
        ∙ sym (get_mqtt_lem req r s last)
  ]

  -- The answer to a GET does not depend on the stored password: it is the same after any save of
  -- the password, whether the save succeeds or not.
  pub get_hides_pass :
      (parse : Bytes → ℤ × MqttConfig) (req : Request) (r : Response) (s : MqttRest st)
      (pass : Bytes)
      → req.method ≡ http_get
      → (mqtt_handler st parse req r (with_pass pass s)).response
        ≡ (mqtt_handler st parse req r s).response
  unfolding mqtt_handler
  get_hides_pass parse req r s pass m = rw (m, mqtt_handler) (get_mqtt-with_pass req r s pass)
