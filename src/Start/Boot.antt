-- ===== src/Start/Boot.antt =====
-- The safe state after a start (src/main.c).
use cedar_switch_3i3o_power.Common.{◌≡◌, refl, ◌∙◌, ap, inl, inr, true, Bool-cases, ℤ}
use cedar_switch_3i3o_power.Common.CString.{Bytes}
use cedar_switch_3i3o_power.Bus.{RelaysDefState}
use cedar_switch_3i3o_power.Io.Init.{RelaySettings, io_init}
use cedar_switch_3i3o_power.Web.Http.{Request, Response}
use cedar_switch_3i3o_power.Web.SafeState.{SafeRest, def_relay_state_handler}
use cedar_switch_3i3o_power.Web.SafeState.RoundTrip.{Accepts, CompletesDef, post_then_init}
use cedar_switch_3i3o_power.Start.Files.{Files}
use cedar_switch_3i3o_power.Start.Main.{
  Board, devices_ready, Machine, start_io, start_network, make_files, start_services, main,
}

module _ (st : RelaySettings) (fs : Files) where
  abbrev settings_of : Machine st fs → RelaysDefState × st.Store
  settings_of m = (m.def, m.store)

  settings-start_network :
      (b : Board) (m : Machine st fs) → settings_of (start_network st fs b m) ≡ settings_of m
  unfolding start_network
  settings-start_network b m = elim (Bool-cases b.has_iface) [
    | inl up ↦ rw (up) refl
    | inr none_found ↦ rw (none_found) refl
  ]

  settings-main :
      (b : Board) (m : Machine st fs)
      → devices_ready b ≡ true
      → settings_of (main st fs b m) ≡ io_init st m.def m.store
  unfolding main start_services make_files start_io
  settings-main b m ready = rw (ready) (settings-start_network b _)

  -- Where the storage accepts every save, a POST that completes a body with the safe state answers
  -- 200, and the next start on which the devices are ready, with those settings, gives the relay task
  -- that state and saves nothing, whatever the file system and the network do.
  pub post_then_boot :
      (parse : Bytes → ℤ × RelaysDefState) (req : Request) (r : Response) (s : SafeRest st)
      (tmp : RelaysDefState) (b : Board) (m : Machine st fs)
      → Accepts st
      → CompletesDef st parse req s tmp
      → devices_ready b ≡ true
      → m.store ≡ (def_relay_state_handler st parse req r s).state.store
      → ((def_relay_state_handler st parse req r s).response.status ≡ 200)
        × ((main st fs b m).def ≡ tmp)
        × ((main st fs b m).store ≡ m.store)
  post_then_boot parse req r s tmp b m ok c ready kept =
      let (status, loaded) = post_then_init st parse req r s tmp m.def ok c in
      let started : settings_of (main st fs b m) ≡ (tmp, m.store) =
        settings-main b m ready ∙ rw (kept) loaded in
      (status, ap (λ p. p.0) started, ap (λ p. p.1) started)
