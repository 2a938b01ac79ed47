-- ===== src/Start/Main.antt =====
-- src/main.c: `main` and the functions of the file that it calls or could call; `main` checks the hardware, starts the services and blinks.
use Prim.Native.Nat.{bit_xor}
use cedar_switch_3i3o_power.Common.{
  ℕ, suc, ◌+◌, ◌*◌, ◌/◌, ◌%◌, ◌^◌, Bool, true, false, not, List, [], ◌∷◌, ◌++◌, ◌==◌, length,
  if◌then◌else◌, ℤ, is_neg,
}
use cedar_switch_3i3o_power.Common.CString.{Bytes, codes}
use cedar_switch_3i3o_power.Common.Format.{upper_hex2}
use cedar_switch_3i3o_power.Bus.{RelaysDefState}
use cedar_switch_3i3o_power.Io.Init.{RelaySettings, io_init}
use cedar_switch_3i3o_power.Start.Files.{Files, create_index_html, fs_service_init}

-- The three words of 32 bits at STM32_UID_BASE.
pub record Uid : Type 0 where
  pub word0 : ℕ
  pub word1 : ℕ
  pub word2 : ℕ

-- a ^ (b << 11) ^ (c << 22) ^ (a >> 7) ^ (b >> 3) in 32 bits
unfoldable pub mix_uid : Uid → ℕ
mix_uid uid =
    let a = uid.word0 in
    let b = uid.word1 in
    let c = uid.word2 in
    bit_xor (bit_xor (bit_xor (bit_xor a (b * 2 ^ 11 % 2 ^ 32)) (c * 2 ^ 22 % 2 ^ 32)) (a / 2 ^ 7))
      (b / 2 ^ 3)

unfoldable pub make_mac_from_uid : Uid → List ℕ
make_mac_from_uid uid =
    let h = mix_uid uid in 0x02 ∷ 0x00 ∷ 0x5E ∷ h / 2 ^ 16 % 256 ∷ h / 2 ^ 8 % 256 ∷ h % 256 ∷ []

-- The address in `mac_params`.
abbrev pub mac_params : List ℕ
mac_params = 0x02 ∷ 0x00 ∷ 0x00 ∷ 0x12 ∷ 0x34 ∷ 0x56 ∷ []

-- What the devices of the board answer.
pub record Board : Type 0 where
  pub led_ready : Bool
  pub led_configured : ℤ
  pub flash_ready : Bool
  pub entropy_ready : Bool
  pub has_iface : Bool
  pub uid : Uid

-- The tests before the first service: `main` returns 0 where one of them fails. Both tests of the
-- flash ask the same device.
unfoldable pub devices_ready : Board → Bool
devices_ready b =
    if not b.led_ready
    then false
    else if is_neg b.led_configured
    then false
    else if not b.flash_ready
    then false
    else b.entropy_ready

-- The calls of the operating system that start something, in their order.
pub data StartCall : Type 0 where
  add_event_callback settings_subsys_init settings_load create_io_task if_down if_up dhcpv4_start :
      StartCall
  set_mac_address : List ℕ → StartCall

-- The settings, the variable relays_default_state, the disk and the calls so far.
module _ (st : RelaySettings) (fs : Files) where
  pub record Machine : Type 0 where
    pub store : st.Store
    pub def : RelaysDefState
    pub disk : fs.Disk
    pub calls : List StartCall

  abbrev pub call : StartCall → Machine → Machine
  call c m = record m { calls = m.calls ++ c ∷ [] }

  -- io_init, which creates the relay task at its end.
  unfoldable pub start_io : Machine → Machine
  start_io m =
      let started = io_init st m.def m.store in
      call create_io_task (record m { def = started.0; store = started.1 })

  unfoldable pub start_network : Board → Machine → Machine
  start_network b m =
      if b.has_iface
      then call dhcpv4_start (call if_up (call (set_mac_address mac_params) (call if_down m)))
      else m

  -- The directories and the page.
  unfoldable pub make_files : Machine → Machine
  make_files m =
      let d1 = (fs.mkdir (codes "/lfs/test1") m.disk).1 in
      let d2 = (fs.mkdir (codes "/lfs/test1/test2") d1).1 in
      let d3 = (fs.mkdir (codes "/lfs/test1/test2/test3") d2).1 in
      let d4 = (fs.mkdir (codes "/lfs/www") d3).1 in record m { disk = (create_index_html fs d4).1 }

  -- From the first service to the loop.
  unfoldable pub start_services : Board → Machine → Machine
  start_services b m =
      let m1 = call settings_load (call settings_subsys_init (call add_event_callback m)) in
      let m2 : Machine = record m1 { disk = (fs_service_init fs m1.disk).1 } in
      make_files (start_network b (start_io m2))

  unfoldable pub main : Board → Machine → Machine
  main b m = if devices_ready b then start_services b m else m

-- The loop at the end: the answers of gpio_pin_toggle_dt so far. Whether it goes on, and how often
-- the light was switched.
unfoldable pub blink : List ℤ → Bool × ℕ
blink [] = (true, 0)
blink (rc ∷ rest) =
    let later = blink rest in if is_neg rc then (false, 0) else (later.0, suc later.1)

-- "%02X%s" of the byte at `i`: a line ends after 16 bytes.
unfoldable pub dump_loop : ℕ → List ℕ → Bytes
dump_loop i [] = []
dump_loop i (byte ∷ rest) =
    upper_hex2 byte ++ ((if (i + 1) % 16 == 0 then 10 else b' ') ∷ dump_loop (i + 1) rest)

unfoldable pub dump_hex : List ℕ → Bytes
dump_hex buf = dump_loop 0 buf ++ (if length buf % 16 == 0 then [] else 10 ∷ [])
