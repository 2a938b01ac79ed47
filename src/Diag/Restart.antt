-- ===== src/Diag/Restart.antt =====
-- How many threads of src/diagnostic/diag_report.c live on the one stack.
use cedar_switch_3i3o_power.Common.{
  ℕ, ◌≡◌, refl, ◌∙◌, true, if◌then◌else◌, List, [], ◌∷◌, All, arith,
}
use cedar_switch_3i3o_power.Diag.Stats.{Iface}
use cedar_switch_3i3o_power.Diag.Control.{
  Diag, DiagOp, diag_start, diag_stop, diag_wake, net_diag_start_periodic, net_diag_stop,
  net_diag_thread_fn, init_app, diag_op, diag_ops,
}

-- One thread while the report runs, and none before.
abbrev pub IsSingle : Diag → Type 0
IsSingle d = d.threads ≡ (if d.run then 1 else 0)

abbrev pub IsNotStop : DiagOp → Type 0
IsNotStop (diag_start interval ifaces) = Unit
IsNotStop diag_stop = ⊥
IsNotStop (diag_wake seen) = Unit

diag_op-IsSingle : (op : DiagOp) (d : Diag) → IsNotStop op → IsSingle d → IsSingle (diag_op op d)
unfolding diag_op net_diag_start_periodic net_diag_thread_fn init_app
diag_op-IsSingle (diag_start interval ifaces) d h single = ground arith
diag_op-IsSingle diag_stop d h single = absurd h
diag_op-IsSingle (diag_wake seen) d h single = ground arith

-- However often the report is started, and whenever its thread wakes up, one thread is on the stack
-- while it runs and none before, as long as it is not stopped.
diag_ops-IsSingle :
    (ops : List DiagOp) (d : Diag) → All IsNotStop ops → IsSingle d → IsSingle (diag_ops ops d)
unfolding diag_ops
diag_ops-IsSingle [] d h single = single
diag_ops-IsSingle (op ∷ rest) d (h, hs) single =
    diag_ops-IsSingle rest (diag_op op d) hs (diag_op-IsSingle op d h single)

-- Threads that are not stopped go on.
diag_op_running :
    (op : DiagOp) (d : Diag)
    → IsNotStop op
    → d.run ≡ true
    → ((diag_op op d).threads ≡ d.threads) × ((diag_op op d).run ≡ true)
unfolding diag_op net_diag_start_periodic net_diag_thread_fn init_app
diag_op_running (diag_start interval ifaces) d h run = ground arith
diag_op_running diag_stop d h run = absurd h
diag_op_running (diag_wake seen) d h run = ground arith

diag_ops_running :
    (ops : List DiagOp) (d : Diag)
    → All IsNotStop ops
    → d.run ≡ true
    → (diag_ops ops d).threads ≡ d.threads
unfolding diag_ops
diag_ops_running [] d h run = refl
diag_ops_running (op ∷ rest) d (h, hs) run =
    let (same, still) = diag_op_running op d h run in
    diag_ops_running rest (diag_op op d) hs still ∙ same

run_again :
    (interval : ℕ) (ifaces : List Iface) (d : Diag)
    → (diag_op (diag_start interval ifaces) (diag_op diag_stop d)).run ≡ true
unfolding diag_op net_diag_start_periodic net_diag_stop init_app
run_again interval ifaces d = refl

two_again :
    (interval : ℕ) (ifaces : List Iface) (d : Diag)
    → IsSingle d
    → d.run ≡ true
    → (diag_op (diag_start interval ifaces) (diag_op diag_stop d)).threads ≡ 2
unfolding diag_op net_diag_start_periodic net_diag_stop init_app
two_again interval ifaces d single run = ground arith

-- Where the report is stopped and started again before its thread wakes up, the thread does not end,
-- and a second one is created on the same stack: from then on both run, until the next stop.
restart_two_threads :
    (interval : ℕ) (ifaces : List Iface) (ops : List DiagOp) (d : Diag)
    → IsSingle d
    → d.run ≡ true
    → All IsNotStop ops
    → (diag_ops (diag_stop ∷ diag_start interval ifaces ∷ ops) d).threads ≡ 2
unfolding diag_ops
restart_two_threads interval ifaces ops d single run h =
    let again = diag_op (diag_start interval ifaces) (diag_op diag_stop d) in
    diag_ops_running ops again h (run_again interval ifaces d)
    ∙ two_again interval ifaces d single run
