-- ===== src/Mqtt/Task/Bits.antt =====
-- The bits of the relays that src/mqtt/ha_task.c sets and src/io/io.c drives: tables of 256 states,
-- checked by evaluation.
use cedar_switch_3i3o_power.Common.{
  Bool-cases, inl, inr, ℕ, zero, suc, ◌<◌, ◌≤◌, ◌≡◌, refl, Bool, true, false, not, ◌&&◌, ◌==◌,
  if◌then◌else◌, arith,
}
use cedar_switch_3i3o_power.Bus.{has_bit}
use cedar_switch_3i3o_power.Io.Task.{Pins, write_relays_once}
use cedar_switch_3i3o_power.Mqtt.Task.{set_relay, relay_mask}

-- The states up to one of them pass a test.
pass_to : (ℕ → Bool) → ℕ → Bool
pass_to test zero = test zero
pass_to test (suc top) = if test (suc top) then pass_to test top else false

pass_to-le :
    (test : ℕ → Bool) (top state : ℕ) → state ≤ top → pass_to test top ≡ true → test state ≡ true
unfolding pass_to
pass_to-le test zero zero le passed = passed
pass_to-le test zero (suc state) le passed = absurd (omega arith)
pass_to-le test (suc top) state le passed = elim (Bool-cases (state == suc top)) [
  | inl last ↦ let same_state : state ≡ suc top = ground arith in rw (same_state) (ground arith)
  | inr earlier ↦ pass_to-le test top state (ground arith) (ground arith)
]

abbrev same : Bool → Bool → Bool
same true b = b
same false b = not b

same_sound : (a b : Bool) → same a b ≡ true → a ≡ b
same_sound true true h = refl
same_sound true false h = cc
same_sound false true h = cc
same_sound false false h = refl

-- The pins with one of the three changed.
abbrev pub with_relay : ℕ → Bool → Pins → Pins
with_relay n on pins = record {
  relay1 = if n == 1 then on else pins.relay1;
  relay2 = if n == 2 then on else pins.relay2;
  relay3 = if n == 3 then on else pins.relay3;
}

abbrev same_pins : Pins → Pins → Bool
same_pins p q = same p.relay1 q.relay1 && (same p.relay2 q.relay2 && same p.relay3 q.relay3)

same_pins_sound : (p q : Pins) → same_pins p q ≡ true → p ≡ q
same_pins_sound p q h = ground (
  arith,
  same_sound p.relay1 q.relay1,
  same_sound p.relay2 q.relay2,
  same_sound p.relay3 q.relay3,
)

module _ (shifted_out : ℕ → ℕ) where
  row : ℕ → Bool → ℕ → Bool
  row n on state =
      same_pins (write_relays_once (set_relay shifted_out n (if on then 1 else 0) state))
        (with_relay n on (write_relays_once state))

  row_lem : (n : ℕ) (on : Bool) → 1 ≤ n → n ≤ 3 → pass_to (row n on) 255 ≡ true
  unfolding pass_to row set_relay relay_mask write_relays_once has_bit
  row_lem zero on l h = absurd (omega arith)
  row_lem (suc zero) true l h = refl
  row_lem (suc zero) false l h = refl
  row_lem (suc (suc zero)) true l h = refl
  row_lem (suc (suc zero)) false l h = refl
  row_lem (suc (suc (suc zero))) true l h = refl
  row_lem (suc (suc (suc zero))) false l h = refl
  row_lem (suc (suc (suc (suc n)))) on l h = absurd (omega arith)

  -- A command for relay 1, 2 or 3 sets that relay's pin and leaves the others.
  pub write_relays_once-set_relay :
      (n : ℕ) (on : Bool) (state : ℕ)
      → 1 ≤ n
      → n ≤ 3
      → state < 256
      → write_relays_once (set_relay shifted_out n (if on then 1 else 0) state)
        ≡ with_relay n on (write_relays_once state)
  unfolding row
  write_relays_once-set_relay n on state l h w =
      same_pins_sound _ _ (pass_to-le (row n on) 255 state (omega arith) (row_lem n on l h))
