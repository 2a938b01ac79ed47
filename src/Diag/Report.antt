-- ===== src/Diag/Report.antt =====
-- src/diagnostic/diag_report.c: what one run of the timer, of the totals and of the thread writes.
use cedar_switch_3i3o_power.Common.{
  ℕ, ◌+◌, ◌%◌, ◌^◌, Bool, true, false, not, Option, none, some, List, [], ◌∷◌, ◌++◌, if◌then◌else◌,
  ℤ, pos, negsuc, is_neg,
}
use cedar_switch_3i3o_power.Common.CString.{codes}
use cedar_switch_3i3o_power.Diag.Stats.{NetStats, zero_stats, Iface, Line, line}
use cedar_switch_3i3o_power.Diag.Print.{print_stats, print_eth_stats}

-- struct totals, of 64 bits each
pub record Totals : Type 0 where
  pub rx : ℕ
  pub tx : ℕ

-- net_if_foreach(iface_cb, &data): each call leaves its statistics in `data`.
unfoldable pub iface_cb : Iface → NetStats → List Line × NetStats
iface_cb iface data_of =
    let answer = iface.get_all data_of in (print_stats (some iface) answer.1, answer.1)

unfoldable pub foreach_iface : List Iface → NetStats → List Line
foreach_iface [] data_of = []
foreach_iface (iface ∷ rest) data_of =
    let (lines, data') = iface_cb iface data_of in lines ++ foreach_iface rest data'

unfoldable pub eth_iface_cb : Iface → List Line
eth_iface_cb iface =
    let answer = iface.get_ethernet in
    if not iface.is_ethernet
    then []
    else if is_neg answer.0
    then []
    else print_eth_stats iface answer.1

unfoldable pub foreach_eth : List Iface → List Line
foreach_eth [] = []
foreach_eth (iface ∷ rest) = eth_iface_cb iface ++ foreach_eth rest

-- The handler of the timer. `global` is what net_mgmt leaves in `data` for no interface.
unfoldable pub stats : NetStats → List Iface → List Line
stats global ifaces = print_stats none global ++ (foreach_iface ifaces global ++ foreach_eth ifaces)

-- "%d" of an error: the arguments of a line are integers.
unfoldable pub sum_and_print_cb : Iface → Totals → List Line × Totals
sum_and_print_cb iface t =
    let answer = iface.get_all zero_stats in
    let warning : Line = record {
      format = codes "Cannot get stats for iface %p (%d)";
      args = pos iface.address ∷ answer.0 ∷ [];
    } in
    if is_neg answer.0 then (warning ∷ [], t) else (
      print_stats (some iface) answer.1,
      record {
        rx = (t.rx + answer.1.bytes.received) % 2 ^ 64;
        tx = (t.tx + answer.1.bytes.sent) % 2 ^ 64;
      },
    )

unfoldable pub foreach_sum : List Iface → Totals → List Line × Totals
foreach_sum [] t = ([], t)
foreach_sum (iface ∷ rest) t =
    let here = sum_and_print_cb iface t in
    let later = foreach_sum rest here.1 in (here.0 ++ later.0, later.1)

abbrev pub total_line : Totals → Line
total_line t = line (codes "Total bytes rx=%llu tx=%llu") (t.rx ∷ t.tx ∷ [])

unfoldable pub stats_work : List Iface → List Line
stats_work ifaces =
    let (lines, t) = foreach_sum ifaces (record { rx = 0; tx = 0 }) in lines ++ total_line t ∷ []

-- CONFIG_HEAP_MEM_POOL_SIZE is 8192, and CONFIG_MEM_POOL_HEAP is not configured.
unfoldable pub diag_mem : List Line
diag_mem = line (codes "DIAG MEM pool_size=%u (compile-time only)") (8192 ∷ []) ∷ []

abbrev pub bool_arg : Bool → ℕ
bool_arg true = 1
bool_arg false = 0

-- The argument is the default interface.
unfoldable pub diag_iface_brief : Option Iface → List Line
diag_iface_brief none = line (codes "DIAG IF none") [] ∷ []
diag_iface_brief (some iface) =
    line (codes "DIAG IF up=%d mtu=%u") (bool_arg iface.is_up ∷ iface.mtu ∷ []) ∷ []

-- The limits of the build, or -1.
abbrev pub limit_arg : Option ℕ → ℤ
limit_arg none = negsuc 0
limit_arg (some n) = pos n

unfoldable pub diag_sockets : Option ℕ → Option ℕ → List Line
diag_sockets sockets_max poll_max =
    record {
      format = codes "DIAG SOCK max=%d poll_max=%d";
      args = limit_arg sockets_max ∷ limit_arg poll_max ∷ [];
    }
    ∷ []
