-- ===== src/Diag/Totals.antt =====
-- What `stats_work` of src/diagnostic/diag_report.c reports.
use cedar_switch_3i3o_power.Common.{
  ℕ, ◌+◌, ◌%◌, ◌^◌, ◌<◌, ◌≡◌, refl, ◌∙◌, ap, inl, inr, Bool-cases, List, [], ◌∷◌, ◌++◌,
  if◌then◌else◌, is_neg, arith,
}
use cedar_switch_3i3o_power.Diag.Stats.{zero_stats, Iface, Line}
use cedar_switch_3i3o_power.Diag.Report.{
  Totals, sum_and_print_cb, foreach_sum, total_line, stats_work,
}

-- The counters of an interface that answers, and 0 of one that does not.
abbrev pub received_of : Iface → ℕ
received_of iface =
    let answer = iface.get_all zero_stats in if is_neg answer.0 then 0 else answer.1.bytes.received

abbrev pub sent_of : Iface → ℕ
sent_of iface =
    let answer = iface.get_all zero_stats in if is_neg answer.0 then 0 else answer.1.bytes.sent

abbrev pub sum : (Iface → ℕ) → List Iface → ℕ
sum f [] = 0
sum f (iface ∷ rest) = f iface + sum f rest

-- The report on one interface does not depend on the others.
abbrev pub block : Iface → List Line
block iface = (sum_and_print_cb iface (record { rx = 0; tx = 0 })).0

abbrev pub blocks : List Iface → List Line
blocks [] = []
blocks (iface ∷ rest) = block iface ++ blocks rest

block_lem : (iface : Iface) (t : Totals) → (sum_and_print_cb iface t).0 ≡ block iface
unfolding sum_and_print_cb
block_lem iface t = elim (Bool-cases (is_neg (iface.get_all zero_stats).0)) [
  | inl failed ↦ rw (failed, block) refl
  | inr answers ↦ rw (answers, block) refl
]

-- Both totals fit 64 bits.
abbrev Fits : Totals → Type 0
Fits t = (t.rx < 2 ^ 64) × (t.tx < 2 ^ 64)

abbrev with_sums : Totals → ℕ → ℕ → Totals
with_sums t rx tx = record { rx = (t.rx + rx) % 2 ^ 64; tx = (t.tx + tx) % 2 ^ 64 }

totals-sum_and_print_cb :
    (iface : Iface) (t : Totals)
    → Fits t
    → (sum_and_print_cb iface t).1 ≡ with_sums t (received_of iface) (sent_of iface)
unfolding sum_and_print_cb
totals-sum_and_print_cb iface t (rx, tx) = elim (Bool-cases (is_neg (iface.get_all zero_stats).0)) [
  | inl failed ↦ rw (failed) (ground arith)
  | inr answers ↦ rw (answers) refl
]

with_sums_twice :
    (t : Totals) (a b x y : ℕ) → with_sums (with_sums t a b) x y ≡ with_sums t (a + x) (b + y)
with_sums_twice t a b x y = ground arith

totals-foreach_sum :
    (ifaces : List Iface) (t : Totals)
    → Fits t
    → (foreach_sum ifaces t).1 ≡ with_sums t (sum received_of ifaces) (sum sent_of ifaces)
unfolding foreach_sum
totals-foreach_sum [] t (rx, tx) = ground arith
totals-foreach_sum (iface ∷ rest) t fits =
    let here = totals-sum_and_print_cb iface t fits in
    rw (here) (
      totals-foreach_sum rest (with_sums t (received_of iface) (sent_of iface))
        (omega arith, omega arith)
      ∙ with_sums_twice t (received_of iface) (sent_of iface) _ _)

lines-foreach_sum : (ifaces : List Iface) (t : Totals) → (foreach_sum ifaces t).0 ≡ blocks ifaces
unfolding foreach_sum
lines-foreach_sum [] t = refl
lines-foreach_sum (iface ∷ rest) t =
    rw (block_lem iface t) (ap (λ l. block iface ++ l) (lines-foreach_sum rest _))

from_zero :
    (x y : ℕ)
    → with_sums (record { rx = 0; tx = 0 }) x y ≡ record { rx = x % 2 ^ 64; tx = y % 2 ^ 64 }
from_zero x y = ground arith

-- stats_work reports on each interface by itself, in their order, and then the sums of the bytes of
-- those that have answered, modulo 2 ^ 64.
pub stats_work_lem :
    (ifaces : List Iface)
    → stats_work ifaces
      ≡ blocks ifaces
        ++ total_line
            (record { rx = sum received_of ifaces % 2 ^ 64; tx = sum sent_of ifaces % 2 ^ 64 })
          ∷ []
unfolding stats_work
stats_work_lem ifaces =
    rw
      (
        lines-foreach_sum ifaces (record { rx = 0; tx = 0 }),
        totals-foreach_sum ifaces (record { rx = 0; tx = 0 }) (omega arith, omega arith),
      )
      (ap (λ t. blocks ifaces ++ total_line t ∷ [])
        (from_zero (sum received_of ifaces) (sum sent_of ifaces)))
