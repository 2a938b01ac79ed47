-- ===== src/Mqtt/Events/Fuel.antt =====
-- The loops of src/mqtt/ha_mqtt_callback.c end by themselves: their fuel is enough.
use cedar_switch_3i3o_power.Common.{
  ℕ, zero, suc, ◌+◌, ◌-◌, ◌≤◌, ◌<◌, min, ◌≡◌, refl, sym, inl, inr, true, false, ◌&&◌, [], ◌∷◌, ◌++◌,
  ◌==◌, ltb, arith, Bool-cases, length, length-append,
}
use cedar_switch_3i3o_power.Common.CString.{Bytes}
use cedar_switch_3i3o_power.Mqtt.Events.{Got, payload_size, drain_size, read_loop, drain_loop}
use cedar_switch_3i3o_power.Mqtt.Events.Payload.{Got-cases}

module _ (Net : Type 0) (read_payload : ℕ → Net → Got × Net) where
  read_loop_end :
      (fuel to_read : ℕ) (got : Bytes) (net : Net)
      → 699 ≤ length got
      → read_loop Net read_payload fuel to_read got net ≡ (got, net)
  unfolding read_loop
  read_loop_end zero to_read got net h = refl
  read_loop_end (suc fuel) to_read got net h =
      let full : (ltb (length got) to_read && ltb (length got) 699) ≡ false = ground arith in
      rw (full) refl

  read_loop_fuel :
      (fuel other to_read : ℕ) (got : Bytes) (net : Net)
      → 699 ≤ length got + fuel
      → 699 ≤ length got + other
      → read_loop Net read_payload fuel to_read got net
        ≡ read_loop Net read_payload other to_read got net
  unfolding read_loop
  read_loop_fuel zero other to_read got net h k =
      sym (read_loop_end other to_read got net (omega arith))
  read_loop_fuel (suc fuel) zero to_read got net h k =
      read_loop_end (suc fuel) to_read got net (omega arith)
  read_loop_fuel (suc fuel) (suc other) to_read got net h k =
      elim (Bool-cases (ltb (length got) to_read && ltb (length got) 699)) [
        | inr done ↦ rw (done) refl
        | inl more ↦ elim (Got-cases (read_payload (699 - length got) net).0) [
          | inl none ↦ rw (more, none) refl
          | inr (inl nothing) ↦ rw (more, nothing) refl
          | inr (inr (c, cs, some)) ↦
              let grown = length-append got (c ∷ cs) in
              rw (more, some)
                (read_loop_fuel fuel other to_read (got ++ c ∷ cs) _ (omega arith) (omega arith))
        ]
      ]

  drain_loop_fuel :
      (fuel other remain : ℕ) (net : Net)
      → remain ≤ fuel
      → remain ≤ other
      → drain_loop Net read_payload fuel remain net ≡ drain_loop Net read_payload other remain net
  unfolding drain_loop
  drain_loop_fuel zero zero remain net h k = refl
  drain_loop_fuel zero (suc other) remain net h k =
      let none : (remain == 0) ≡ true = ground arith in rw (none) refl
  drain_loop_fuel (suc fuel) zero remain net h k =
      let none : (remain == 0) ≡ true = ground arith in rw (none) refl
  drain_loop_fuel (suc fuel) (suc other) remain net h k = elim (Bool-cases (remain == 0)) [
    | inl done ↦ rw (done) refl
    | inr more ↦ elim (Got-cases (read_payload (min drain_size remain) net).0) [
      | inl none ↦ rw (more, none) refl
      | inr (inl nothing) ↦ rw (more, nothing) refl
      | inr (inr (c, cs, some)) ↦
          let left : 0 < remain = ground arith in
          rw (more, some)
            (drain_loop_fuel fuel other (remain - length (c ∷ cs)) _ (omega arith) (omega arith))
    ]
  ]

  -- Both loops end by themselves, whatever the library answers: with the fuel that the handler gives
  -- them or more the result is the same.
  read_publish_ends :
      (extra to_read remain : ℕ) (net : Net)
      → remain ≤ to_read
      → (read_loop Net read_payload (payload_size + extra) to_read [] net
          ≡ read_loop Net read_payload payload_size to_read [] net)
        × (drain_loop Net read_payload (to_read + 1 + extra) remain net
            ≡ drain_loop Net read_payload (to_read + 1) remain net)
  read_publish_ends extra to_read remain net h = (
    read_loop_fuel (payload_size + extra) payload_size to_read [] net (omega arith) (omega arith),
    drain_loop_fuel (to_read + 1 + extra) (to_read + 1) remain net (omega arith) (omega arith),
  )
