-- ===== src/Mqtt/Events/Payload.antt =====
-- The loops of src/mqtt/ha_mqtt_callback.c that read the payload of a PUBLISH packet.
use mathlib.Core.List.{append_assoc}
use cedar_switch_3i3o_power.Common.{
  ℕ, zero, suc, ◌+◌, ◌-◌, ◌≤◌, ◌<◌, min, ◌≡◌, refl, ◌∙◌, sym, ap, ◌⊎◌, inl, inr, false, ◌&&◌, [],
  ◌∷◌, ◌++◌, ◌==◌, ltb, arith, Bool-cases, length, take, length-append,
}
use cedar_switch_3i3o_power.Common.CString.{Bytes}
use cedar_switch_3i3o_power.Mqtt.Events.{
  Got, failed, bytes, payload_size, drain_size, read_loop, drain_loop, read_publish,
}

-- The library without errors: while the payload has bytes left, a call gives at least one of them,
-- at most as many as it asks for, in their order.
pub record Reader : Type 1 where
  pub Net : Type 0
  pub read_payload : ℕ → Net → Got × Net
  pub pending : Net → Bytes
  pub read-pending :
      (n : ℕ) (net : Net)
      → 0 < n
      → 0 < length (pending net)
      → (c : ℕ) × (cs : Bytes) × ((read_payload n net).0 ≡ bytes (c ∷ cs))
        × (length (c ∷ cs) ≤ n)
        × (pending net ≡ (c ∷ cs) ++ pending (read_payload n net).1)

nil_of_length : (xs : Bytes) → length xs ≡ 0 → xs ≡ []
nil_of_length [] h = refl
nil_of_length (x ∷ xs) h = absurd (omega arith)

take_prefix :
    (n : ℕ) (xs ys : Bytes) → length xs ≡ min n (length xs + length ys) → xs ≡ take n (xs ++ ys)
take_prefix zero [] ys h = refl
take_prefix zero (x ∷ xs) ys h = absurd (omega arith)
take_prefix (suc n) [] [] h = refl
take_prefix (suc n) [] (y ∷ ys) h = absurd (omega arith)
take_prefix (suc n) (x ∷ xs) ys h = ap (λ t. x ∷ t) (take_prefix n xs ys (omega arith))

length_same : (xs ys : Bytes) → xs ≡ ys → length xs ≡ length ys
length_same xs ys e = ap (length) e

not_ltb : (a b : ℕ) → ltb a b ≡ false → b ≤ a
not_ltb a b h = ground arith

module _ (r : Reader) where
  drain_loop_all :
      (fuel remain : ℕ) (net : r.Net)
      → remain ≡ length (r.pending net)
      → remain < fuel
      → r.pending (drain_loop r.Net r.read_payload fuel remain net) ≡ []
  unfolding drain_loop
  drain_loop_all zero remain net e h = absurd (omega arith)
  drain_loop_all (suc fuel) remain net e h = elim (Bool-cases (remain == 0)) [
    | inl done ↦ rw (done) (nil_of_length (r.pending net) (ground arith))
    | inr more ↦
        let some_left : 0 < remain = ground arith in
        let (c, cs, answer, fits, rest) =
          r.read-pending (min drain_size remain) net (omega arith) (omega arith) in
        let net' = (r.read_payload (min drain_size remain) net).1 in
        let size = length_same (r.pending net) _ rest in
        let split = length-append (c ∷ cs) (r.pending net') in
        rw (more, answer)
          (drain_loop_all fuel (remain - length (c ∷ cs)) net' (omega arith) (omega arith))
  ]

  -- With a round of fuel for each byte that still fits, the array takes what fits of the payload, and
  -- the rest is pending.
  read_loop_all :
      (fuel to_read : ℕ) (got : Bytes) (net : r.Net)
      → to_read ≡ length got + length (r.pending net)
      → length got ≤ 699
      → 699 < length got + fuel
      → let read = read_loop r.Net r.read_payload fuel to_read got net in
        (read.0 ++ r.pending read.1 ≡ got ++ r.pending net) × (length read.0 ≡ min 699 to_read)
  unfolding read_loop
  read_loop_all zero to_read got net e fits h = absurd (omega arith)
  read_loop_all (suc fuel) to_read got net e fits h =
      elim (Bool-cases (ltb (length got) to_read && ltb (length got) 699)) [
        | inl more ↦
            let room : length got < 699 = ground arith in
            let left : length got < to_read = ground arith in
            let (c, cs, answer, short, rest) =
              r.read-pending (699 - length got) net (omega arith) (omega arith) in
            let net' = (r.read_payload (699 - length got) net).1 in
            let size = length_same (r.pending net) _ rest in
            let split = length-append (c ∷ cs) (r.pending net') in
            let grown = length-append got (c ∷ cs) in
            let (bytes_same, count) =
              read_loop_all fuel to_read (got ++ c ∷ cs) net' (omega arith) (omega arith)
                (omega arith) in
            rw (more, answer)
              (
                bytes_same
                    ∙ append_assoc got (c ∷ cs) (r.pending net')
                    ∙ ap (λ s. got ++ s) (sym rest),
                count,
              )
        | inr done ↦ rw (done) (refl, ground arith)
      ]

  -- Where the library gives at least one byte for every call while the payload has bytes left, and
  -- never an error, the handler stores the first 699 bytes of the payload and reads the others
  -- away, however the library cuts it, so that nothing of the packet is left for the next one.
  pub read_publish_all :
      (net : r.Net)
      → ((read_publish r.Net r.read_payload (length (r.pending net)) net).0
          ≡ take 699 (r.pending net))
        × (r.pending (read_publish r.Net r.read_payload (length (r.pending net)) net).1 ≡ [])
  unfolding read_publish
  read_publish_all net =
      let to_read = length (r.pending net) in
      let read = read_loop r.Net r.read_payload payload_size to_read [] net in
      let (same, count) =
        read_loop_all 700 to_read [] net (omega arith) (omega arith) (omega arith) in
      let size = length-append read.0 (r.pending read.1) in
      let whole = length_same (read.0 ++ r.pending read.1) (r.pending net) same in
      let kept : read.0 ≡ take 699 (r.pending net) =
        take_prefix 699 read.0 (r.pending read.1) (omega arith) ∙ ap (take 699) same in
      elim (Bool-cases (to_read == 0)) [
        | inl none ↦
            let empty = nil_of_length (r.pending net) (ground arith) in
            rw (none) (rw (empty) refl, empty)
        | inr some ↦ elim (Bool-cases (ltb (length read.0) to_read)) [
          | inl more ↦
              rw (some, more)
                (
                  kept,
                  drain_loop_all (to_read + 1) (to_read - length read.0) read.1 (omega arith)
                      (omega arith),
                )
          | inr all ↦
              rw (some, all)
                (
                  kept,
                  nil_of_length (r.pending read.1)
                      (omega (arith, not_ltb (length read.0) to_read all)),
                )
        ]
      ]

pub Got-cases :
    (g : Got) → (g ≡ failed) ⊎ (g ≡ bytes []) ⊎ ((c : ℕ) × (cs : Bytes) × (g ≡ bytes (c ∷ cs)))
Got-cases failed = inl refl
Got-cases (bytes []) = inr (inl refl)
Got-cases (bytes (c ∷ cs)) = inr (inr (c, cs, refl))
