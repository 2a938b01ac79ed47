-- ===== src/Mqtt/Client/Settings.antt =====
-- The client (src/mqtt/ha_mqtt.c) connects with the settings that a POST
-- (src/web/REST_endpoints/mqtt_settings.c) has saved.
use cedar_switch_3i3o_power.Common.{
  ℕ, ◌≡◌, refl, inl, inr, Bool, false, [], ◌∷◌, length, ℤ, is_neg, is_zero, if◌then◌else◌, Option,
  none, some, Bool-cases,
}
use cedar_switch_3i3o_power.Common.CString.{Bytes}
use cedar_switch_3i3o_power.Settings.{Settings}
use cedar_switch_3i3o_power.Web.Http.{Request, Response}
use cedar_switch_3i3o_power.Web.MqttSettings.{
  MqttConfig, MqttKey, MqttValue, MqttRest, mqtt_handler,
}
use cedar_switch_3i3o_power.Mqtt.Setup.{
  SockAddr, htons, dns_query, ClientConfig, client_init, mqtt_task_ha, ha_task,
  app_mqtt_ha_client_init,
}
use cedar_switch_3i3o_power.Mqtt.Setup.Connects.{Accepts, CompletesConfig, loaded, post_then_start}
use cedar_switch_3i3o_power.Mqtt.Client.{Library, ClientTask, arrive}
use cedar_switch_3i3o_power.Mqtt.Client.Passes.{
  af_inet, sock_dgram, PassSeen, connected_pass, mqtt_task_pass,
}

module _ (lib : Library) (is_ipv4 is_ipv6 : Bytes → Bool) (null_length : ℕ) where
  -- The broker that the name service gives for a host, with the port of the settings.
  abbrev pub broker_of : MqttConfig → PassSeen → SockAddr
  broker_of sett seen = record (seen.getaddrinfo sett.host af_inet sock_dgram).1.ai_addr {
    sin_port = htons sett.port;
  }

  -- mqtt_connect was called for this broker with this account.
  abbrev pub ConnectsTo : SockAddr → Bytes → Bytes → Option ClientConfig → Type 0
  ConnectsTo broker user pass none = ⊥
  ConnectsTo broker user pass (some c) =
      (c.broker ≡ broker)
      × (c.user_name ≡ user)
      × (c.user_name_size ≡ length user)
      × (c.password ≡ pass)
      × (c.password_size ≡ length pass)

  mqtt_task_pass-ConnectsTo :
      (sett : MqttConfig) (seen : PassSeen) (t : ClientTask lib is_ipv4 is_ipv6)
      → is_neg (seen.getaddrinfo sett.host af_inet sock_dgram).0 ≡ false
      → ConnectsTo
          (broker_of sett seen)
          sett.user
          sett.pass
          (mqtt_task_pass lib is_ipv4 is_ipv6 null_length sett seen t).config
  unfolding mqtt_task_pass connected_pass dns_query client_init arrive
  mqtt_task_pass-ConnectsTo sett seen t known =
      let t0 = arrive lib is_ipv4 is_ipv6 seen.queued t in
      let config = client_init null_length sett t0.device (broker_of sett seen) in
      let answer = lib.mqtt_connect config (lib.mqtt_client_init t0.adapter.net) in
      elim (Bool-cases (is_zero answer.0)) [
        | inl up ↦ rw (known, up) (refl, refl, refl, refl, refl)
        | inr refused ↦ rw (known, refused) (refl, refl, refl, refl, refl)
      ]

  -- Where the storage accepts every save, a POST that completes a body with the five settings makes
  -- the next start of the client create its two threads exactly if the body enables MQTT, whatever the
  -- settings were; and a pass of the client's loop after that start, if the name service knows the
  -- body's host, connects to the address it gives, at the body's port and with the body's user and
  -- password.
  pub post_then_connect :
      (st : Settings MqttKey MqttValue) (parse : Bytes → ℤ × MqttConfig) (req : Request)
      (r : Response) (s : MqttRest st) (config variable : MqttConfig) (seen : PassSeen)
      (t : ClientTask lib is_ipv4 is_ipv6)
      → Accepts st
      → CompletesConfig st parse req s config
      → is_neg (seen.getaddrinfo config.host af_inet sock_dgram).0 ≡ false
      → let (sett, threads) =
          app_mqtt_ha_client_init st variable (mqtt_handler st parse req r s).state.store in
        (threads ≡ (if config.enabled then mqtt_task_ha ∷ ha_task ∷ [] else []))
        × ConnectsTo
            (broker_of config seen)
            config.user
            config.pass
            (mqtt_task_pass lib is_ipv4 is_ipv6 null_length sett seen t).config
  post_then_connect st parse req r s config variable seen t ok c known =
      rw (post_then_start st parse req r s config variable ok c)
        (refl, mqtt_task_pass-ConnectsTo (loaded st variable config) seen t known)
