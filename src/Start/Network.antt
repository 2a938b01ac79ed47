-- ===== src/Start/Network.antt =====
-- src/main.c, `ipv4_addr_add_handler`, and src/web/http_server_init.c: the network services, which
-- are started when the interface gets an address.
use cedar_switch_3i3o_power.Common.{ℕ, ◌+◌, List, [], ◌∷◌, ◌++◌}
use cedar_switch_3i3o_power.Settings.{Settings}
use cedar_switch_3i3o_power.Auth.State.{Auth, UsersList, Crypto}
use cedar_switch_3i3o_power.Auth.Users.{authentication_init}
use cedar_switch_3i3o_power.Web.MqttSettings.{MqttConfig, MqttKey, MqttValue}
use cedar_switch_3i3o_power.Mqtt.Setup.{MqttThread, app_mqtt_ha_client_init}

module _ (c : Crypto) (us : Settings (Unit {0}) (λ k. UsersList))
    (st : Settings MqttKey MqttValue) where
  -- The static variables and the two storages; how often http_server_start was called, and the
  -- threads that were created.
  pub record Services : Type 0 where
    pub auth : Auth
    pub users_store : us.Store
    pub mqtt_sett : MqttConfig
    pub mqtt_store : st.Store
    pub http_starts : ℕ
    pub threads : List MqttThread

  unfoldable pub app_http_server_init : Services → Services
  app_http_server_init s =
      let (auth, store) = authentication_init us c s.auth.users s.users_store in
      record s { auth = auth; users_store = store; http_starts = s.http_starts + 1 }

  unfoldable pub start_mqtt : Services → Services
  start_mqtt s =
      let (sett, created) = app_mqtt_ha_client_init st s.mqtt_sett s.mqtt_store in
      record s { mqtt_sett = sett; threads = s.threads ++ created }

  -- The test of the event and the address come after both starts, and have no effect.
  unfoldable pub ipv4_addr_add_handler : ℕ → Services → Services
  ipv4_addr_add_handler mgmt_event s = start_mqtt (app_http_server_init s)

  -- Some events.
  unfoldable pub handle_events : List ℕ → Services → Services
  handle_events [] s = s
  handle_events (event ∷ rest) s = handle_events rest (ipv4_addr_add_handler event s)
