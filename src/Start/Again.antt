-- ===== src/Start/Again.antt =====
-- What a second address does (src/main.c, `ipv4_addr_add_handler`).
use mathlib.Core.List.{append_assoc, append-nil}
use cedar_switch_3i3o_power.Common.{
  ℕ, zero, suc, ◌+◌, ◌≡◌, refl, ◌∙◌, sym, ap, inl, inr, true, false, Bool, Bool-cases, is_pos,
  replicate, List, [], ◌∷◌, ◌++◌, length, arith,
}
use cedar_switch_3i3o_power.Settings.{Settings}
use cedar_switch_3i3o_power.Auth.State.{UsersList, Crypto, max_sessions}
use cedar_switch_3i3o_power.Auth.Session.{check_token_valid}
use cedar_switch_3i3o_power.Auth.Users.{authentication_init}
use cedar_switch_3i3o_power.Common.CString.{Bytes}
use cedar_switch_3i3o_power.Web.MqttSettings.{MqttKey, mqtt_enabled, MqttValue}
use cedar_switch_3i3o_power.Mqtt.Setup.{MqttThread, mqtt_task_ha, ha_task, app_mqtt_ha_client_init}
use cedar_switch_3i3o_power.Start.Network.{
  Services, app_http_server_init, start_mqtt, ipv4_addr_add_handler, handle_events,
}

-- The threads of so many starts.
abbrev pub starts : ℕ → List MqttThread
starts zero = []
starts (suc n) = mqtt_task_ha ∷ ha_task ∷ starts n

module _ (c : Crypto) (us : Settings (Unit {0}) (λ k. UsersList))
    (st : Settings MqttKey MqttValue) where
  -- The settings enable MQTT.
  abbrev pub IsEnabled : st.Store → Type 0
  IsEnabled s = (buffer : Bool) → (st.load mqtt_enabled buffer s).1 ≡ true

  handler_once :
      (event : ℕ) (s : Services c us st)
      → IsEnabled s.mqtt_store
      → let out = ipv4_addr_add_handler c us st event s in
        (out.http_starts ≡ s.http_starts + 1)
        × (out.threads ≡ s.threads ++ starts 1)
        × (out.mqtt_store ≡ s.mqtt_store)
  unfolding ipv4_addr_add_handler start_mqtt app_http_server_init app_mqtt_ha_client_init
  handler_once event s enabled = rw (enabled s.mqtt_sett.enabled) (refl, refl, refl)

  starts-handle_events :
      (events : List ℕ) (s : Services c us st)
      → IsEnabled s.mqtt_store
      → let out = handle_events c us st events s in
        (out.http_starts ≡ s.http_starts + length events)
        × (out.threads ≡ s.threads ++ starts (length events))
  unfolding handle_events
  starts-handle_events [] s enabled = (omega arith, sym (append-nil s.threads))
  starts-handle_events (event ∷ rest) s enabled =
      let here = ipv4_addr_add_handler c us st event s in
      let (http, threads, store) = handler_once event s enabled in
      let same : IsEnabled here.mqtt_store = rw (store) enabled in
      let (later, all) = starts-handle_events rest here same in
      (
        omega (arith, later, http),
        all
            ∙ ap (λ t. t ++ starts (length rest)) threads
            ∙ append_assoc s.threads (starts 1) (starts (length rest)),
      )

  cleared_refuses :
      (n now : ℕ) (token : Bytes)
      → (check_token_valid now token (replicate n (record { expires = 0; token = [] }))).0 ≡ false
  unfolding check_token_valid
  cleared_refuses zero now token = refl
  cleared_refuses (suc n) now token = cleared_refuses n now token

  event_drops_sessions :
      (event now : ℕ) (token : Bytes) (s : Services c us st)
      → (check_token_valid now token (ipv4_addr_add_handler c us st event s).auth.sessions).0
        ≡ false
  unfolding ipv4_addr_add_handler start_mqtt app_http_server_init authentication_init
  event_drops_sessions event now token s =
      elim (Bool-cases (is_pos (us.load tt s.auth.users s.users_store).0)) [
        | inl found ↦ rw (found) (cleared_refuses max_sessions now token)
        | inr missing ↦ rw (missing) (cleared_refuses max_sessions now token)
      ]

  sessions-handle_events :
      (event : ℕ) (rest : List ℕ) (now : ℕ) (token : Bytes) (s : Services c us st)
      → (check_token_valid now token (handle_events c us st (event ∷ rest) s).auth.sessions).0
        ≡ false
  unfolding handle_events
  sessions-handle_events event [] now token s = event_drops_sessions event now token s
  sessions-handle_events event (next ∷ rest) now token s =
      sessions-handle_events next rest now token (ipv4_addr_add_handler c us st event s)

  -- While the settings enable MQTT, each of some events, of whatever kind, starts the HTTP server once
  -- more and creates both MQTT threads once more; and after the last of them no token is accepted, also
  -- none that was valid before.
  pub handle_events_again :
      (event : ℕ) (rest : List ℕ) (now : ℕ) (token : Bytes) (s : Services c us st)
      → IsEnabled s.mqtt_store
      → let out = handle_events c us st (event ∷ rest) s in
        (out.http_starts ≡ s.http_starts + length (event ∷ rest))
        × (out.threads ≡ s.threads ++ starts (length (event ∷ rest)))
        × ((check_token_valid now token out.auth.sessions).0 ≡ false)
  handle_events_again event rest now token s enabled =
      let (http, threads) = starts-handle_events (event ∷ rest) s enabled in
      (http, threads, sessions-handle_events event rest now token s)
