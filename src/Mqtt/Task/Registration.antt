-- ===== src/Mqtt/Task/Registration.antt =====
-- The announcement of the devices by `ha_mqtt_task` (src/mqtt/ha_task.c).
use cedar_switch_3i3o_power.Common.{
  ℕ, suc, ◌≤◌, ◌≡◌, refl, ap, Bool, true, List, [], ◌∷◌, map, take, length, inl, inr, Bool-cases,
  arith,
}
use cedar_switch_3i3o_power.Bus.{MqttStatus, chan_read}
use cedar_switch_3i3o_power.Mqtt.Device.{DevType, Device}
use cedar_switch_3i3o_power.Mqtt.Task.{register, config_message}

-- Whatever the status channel shows meanwhile, the announcements that are queued are those of the
-- first devices of the list, in its order; and if the client is still connected at the end, then all
-- of them are.
register_prefix :
    (d : Device) (seen : ℕ → Bool × MqttStatus) (i : ℕ) (ds : List (DevType × ℕ))
    (status : MqttStatus)
    → (count : ℕ) × (count ≤ length ds)
      × ((register d seen i ds status).0 ≡ map (config_message d) (take count ds))
      × ((register d seen i ds status).1.connected ≡ true → count ≡ length ds)
unfolding register
register_prefix d seen i [] status = (0, omega arith, refl, λ e. refl)
register_prefix d seen i (device ∷ rest) status =
    let status' = chan_read (seen i).0 (seen i).1 status in
    let (count, le, same, all) = register_prefix d seen (suc i) rest status' in
    elim (Bool-cases status'.connected) [
      | inl up ↦ rw (up) (
        suc count,
        omega arith,
        ap (λ ms. config_message d device ∷ ms) same,
        λ e. ap suc (all e),
      )
      | inr down ↦ rw (down) (1, omega arith, refl, λ e. cc)
    ]
