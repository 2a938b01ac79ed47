-- ===== src/Io/Init.antt =====
-- src/io/io.c: `io_init`, which loads the state that the relays take when MQTT is lost.
use cedar_switch_3i3o_power.Common.{Bool, false, if◌then◌else◌, is_neg}
use cedar_switch_3i3o_power.Bus.{RelaysDefState}
use cedar_switch_3i3o_power.Settings.{Settings}

-- The keys def_relays_state_enable_settings_topik and def_relays1_state_settings_topik to 3.
pub data RelayKey : Type 0 where
  key_enabled key_relay1 key_relay2 key_relay3 : RelayKey

abbrev pub RelaySettings : Type 1
RelaySettings = Settings RelayKey (λ k. Bool)

module _ (st : RelaySettings) where
  -- A load that fails gives `false`, which is saved in its place.
  unfoldable pub load_or_default : RelayKey → Bool → st.Store → Bool × st.Store
  load_or_default k variable s =
      let loaded = st.load k variable s in
      if is_neg loaded.0 then (false, (st.save k false s).1) else (loaded.1, s)

  -- `def` is the global variable before the call.
  unfoldable pub io_init : RelaysDefState → st.Store → RelaysDefState × st.Store
  unfolding load_or_default
  io_init def s =
      let (enabled, s1) = load_or_default key_enabled def.enabled s in
      let (relay1, s2) = load_or_default key_relay1 def.relay1 s1 in
      let (relay2, s3) = load_or_default key_relay2 def.relay2 s2 in
      let (relay3, s4) = load_or_default key_relay3 def.relay3 s3 in
      (record { enabled = enabled; relay1 = relay1; relay2 = relay2; relay3 = relay3 }, s4)
