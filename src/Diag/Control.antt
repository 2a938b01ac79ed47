-- ===== src/Diag/Control.antt =====
-- src/diagnostic/diag_report.c: the start and the end of the periodic report, and its thread.
use cedar_switch_3i3o_power.Common.{
  ℕ, ◌+◌, ◌-◌, Bool, true, false, Option, none, some, List, [], ◌∷◌, ◌++◌, if◌then◌else◌,
}
use cedar_switch_3i3o_power.Common.CString.{codes}
use cedar_switch_3i3o_power.Diag.Stats.{Iface, Line, line}
use cedar_switch_3i3o_power.Diag.Report.{stats_work, diag_iface_brief, diag_mem, diag_sockets}

-- CONFIG_SAMPLE_PERIOD, in seconds
abbrev pub sample_period : ℕ
sample_period = 30

-- `g_diag`, in seconds how far the timer is, if it is scheduled, and how many threads live that run
-- on `net_diag_stack`.
pub record Diag : Type 0 where
  pub interval : ℕ
  pub run : Bool
  pub timer : Option ℕ
  pub threads : ℕ

abbrev pub diag_init : Diag
diag_init = record { interval = 5; run = false; timer = none; threads = 0 }

-- k_work_reschedule(&stats_timer, …)
unfoldable pub init_app : Diag → Diag
init_app d = record d { timer = some sample_period }

unfoldable pub net_diag_start_periodic : ℕ → List Iface → Diag → List Line × Diag
net_diag_start_periodic interval ifaces d =
    let d' : Diag = record (init_app d) { timer = some sample_period } in
    (
      stats_work ifaces,
      if d'.run
          then d'
          else record d' { interval = interval; run = true; threads = d'.threads + 1 },
    )

unfoldable pub net_diag_stop : Diag → Diag
net_diag_stop d = record d { run = false }

-- What a thread finds when it wakes up: the uptime, the default interface, and the limits.
pub record DiagSeen : Type 0 where
  pub uptime : ℕ
  pub default_iface : Option Iface
  pub sockets_max : Option ℕ
  pub poll_max : Option ℕ

-- One of the threads tests the flag: it writes a report and sleeps again, or it ends.
unfoldable pub net_diag_thread_fn : DiagSeen → Diag → List Line × Diag
net_diag_thread_fn seen d =
    if d.run
    then (
      line (codes "DIAG TICK up_ms=%lld") (seen.uptime ∷ [])
          ∷ (diag_iface_brief seen.default_iface
              ++ (diag_mem ++ diag_sockets seen.sockets_max seen.poll_max)),
      d,
    )
    else ([], record d { threads = d.threads - 1 })

-- What happens to the report: a start, a stop, and a thread that wakes up.
pub data DiagOp : Type 0 where
  diag_start : ℕ → List Iface → DiagOp
  diag_stop : DiagOp
  diag_wake : DiagSeen → DiagOp

unfoldable pub diag_op : DiagOp → Diag → Diag
diag_op (diag_start interval ifaces) d = (net_diag_start_periodic interval ifaces d).1
diag_op diag_stop d = net_diag_stop d
diag_op (diag_wake seen) d = (net_diag_thread_fn seen d).1

unfoldable pub diag_ops : List DiagOp → Diag → Diag
diag_ops [] d = d
diag_ops (op ∷ rest) d = diag_ops rest (diag_op op d)
