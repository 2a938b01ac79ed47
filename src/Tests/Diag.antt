-- ===== src/Tests/Diag.antt =====
-- The diagnostic report at concrete inputs.
use cedar_switch_3i3o_power.Common.{◌≡◌, true, none, [], ◌∷◌, ◌++◌, pos, negsuc}
use cedar_switch_3i3o_power.Diag.Stats.{NetStats, zero_stats, EthStats, Iface}
use cedar_switch_3i3o_power.Diag.Report.{stats_work, total_line}
use cedar_switch_3i3o_power.Diag.Totals.{blocks, stats_work_lem}

abbrev busy : NetStats
busy = record zero_stats { bytes = record { received = 1200; sent = 300 } }

abbrev no_eth : EthStats
no_eth = record {
  bytes = record { received = 0; sent = 0 };
  pkts = record { rx = 0; tx = 0 };
  broadcast = record { rx = 0; tx = 0 };
  multicast = record { rx = 0; tx = 0 };
}

abbrev eth0 : Iface
eth0 = record {
  address = 4096;
  index = 1;
  is_up = true;
  mtu = 1500;
  is_ethernet = true;
  stats = busy;
  all_stats = none;
  get_all = λ before. (pos 0, busy);
  get_ethernet = (pos 0, no_eth);
}

abbrev silent : Iface
silent = record eth0 { index = 2; get_all = λ before. (negsuc 4, before) }

stats_work_lem_example :
    stats_work (eth0 ∷ silent ∷ eth0 ∷ [])
    ≡ blocks (eth0 ∷ silent ∷ eth0 ∷ []) ++ total_line (record { rx = 2400; tx = 600 }) ∷ []
stats_work_lem_example = stats_work_lem (eth0 ∷ silent ∷ eth0 ∷ [])
