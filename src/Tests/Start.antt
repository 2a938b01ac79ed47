-- ===== src/Tests/Start.antt =====
-- The start of the device at concrete inputs.
use cedar_switch_3i3o_power.Common.{
  ℕ, ◌≡◌, refl, sym, ap, subst, true, false, [], ◌∷◌, ◌++◌, length, take, drop, pos,
  take_of_length-le, arith, some,
}
use cedar_switch_3i3o_power.Common.CString.{Bytes, codes}
use cedar_switch_3i3o_power.Auth.State.{UsersList}
use cedar_switch_3i3o_power.Mqtt.Setup.{mqtt_task_ha, ha_task}
use cedar_switch_3i3o_power.Web.SafeState.{def_relay_state_handler}
use cedar_switch_3i3o_power.Auth.Session.{check_token_valid}
use cedar_switch_3i3o_power.Start.Files.{Files, KeepsContent, index_html}
use cedar_switch_3i3o_power.Start.Main.{Board, devices_ready, Machine, main}
use cedar_switch_3i3o_power.Start.Network.{Services, handle_events}
use cedar_switch_3i3o_power.Start.Overwritten.{main_overwrites_index}
use cedar_switch_3i3o_power.Start.Boot.{post_then_boot}
use cedar_switch_3i3o_power.Start.Again.{handle_events_again}
use cedar_switch_3i3o_power.Tests.World.{memory, toy, one}
use cedar_switch_3i3o_power.Tests.Login.{fresh}
use cedar_switch_3i3o_power.Tests.SafeState.{
  cells, cells_accept, parse_def, post, safe_rest, def, completes,
}
use cedar_switch_3i3o_power.Tests.Client.{posted}
use cedar_switch_3i3o_power.Tests.Cells.{five_cells}

-- A file system with one file.
abbrev one_file : Files
one_file = record {
  Disk = Bytes;
  mount = λ d. (pos 0, d);
  mkfs = λ d. (pos 0, []);
  mkdir = λ path d. (pos 0, d);
  open_rdwr = λ path d. (pos 0, d);
  write = λ path bytes d. (pos (length bytes), bytes ++ drop (length bytes) d);
  close = λ path d. d;
  content = λ path d. d;
}

written_over :
    (bytes d : Bytes) (n : ℕ)
    → pos (length bytes) ≡ pos n
    → bytes ++ drop (length bytes) d ≡ take n bytes ++ drop n d
written_over bytes d n h =
    let same : length bytes ≡ n = cc in
    subst (λ m. bytes ++ drop (length bytes) d ≡ take m bytes ++ drop m d) same
      (ap (λ t. t ++ drop (length bytes) d)
        (sym (take_of_length-le (length bytes) bytes (omega arith))))

one_file-KeepsContent : KeepsContent one_file
one_file-KeepsContent = record {
  content-mount = λ path d h. refl;
  content-mkdir = λ path dir d. refl;
  content-write = λ path bytes d n h written. written_over bytes d n written;
  content-close = λ path d. refl;
}

abbrev board : Board
board = record {
  led_ready = true;
  led_configured = pos 0;
  flash_ready = true;
  entropy_ready = true;
  has_iface = true;
  uid = record { word0 = 1; word1 = 2; word2 = 3 };
}

board_ready : devices_ready board ≡ true
unfolding devices_ready
board_ready = refl

abbrev page : Bytes
page = codes "<p>Mine</p>"

abbrev machine : Machine cells one_file
machine = record {
  store = (def_relay_state_handler cells parse_def post fresh safe_rest).state.store;
  def = def;
  disk = page;
  calls = [];
}

main_overwrites_index_example :
    (main cells one_file board machine).disk ≡ index_html ++ drop (length index_html) page
main_overwrites_index_example =
    main_overwrites_index cells one_file one_file-KeepsContent board machine board_ready refl
      (λ d. (refl, refl))

post_then_boot_example :
    ((def_relay_state_handler cells parse_def post fresh safe_rest).response.status ≡ 200)
    × ((main cells one_file board machine).def ≡ def)
    × ((main cells one_file board machine).store ≡ machine.store)
post_then_boot_example =
    post_then_boot cells one_file parse_def post fresh safe_rest def board machine cells_accept
      completes board_ready refl

abbrev services : Services toy (memory UsersList) five_cells
services = record {
  auth = one;
  users_store = some one.users;
  mqtt_sett = posted;
  mqtt_store = posted;
  http_starts = 0;
  threads = [];
}

-- Two addresses, one after the other.
abbrev twice : Services toy (memory UsersList) five_cells
twice = handle_events toy (memory UsersList) five_cells (7 ∷ 7 ∷ []) services

handle_events_again_example :
    (twice.http_starts ≡ 2)
    × (twice.threads ≡ mqtt_task_ha ∷ ha_task ∷ mqtt_task_ha ∷ ha_task ∷ [])
    × ((check_token_valid 100 (codes "abc") twice.auth.sessions).0 ≡ false)
handle_events_again_example =
    handle_events_again toy (memory UsersList) five_cells 7 (7 ∷ []) 100 (codes "abc") services
      (λ buffer. refl)
