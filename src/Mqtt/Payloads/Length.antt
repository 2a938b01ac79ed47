-- ===== src/Mqtt/Payloads/Length.antt =====
-- How long the texts of src/mqtt/ha_mqtt_helpers.c get.
use cedar_switch_3i3o_power.Common.{
  ℕ, ◌+◌, ◌≤◌, ◌<◌, ◌≡◌, refl, List, [], ◌∷◌, ◌++◌, ◌==◌, if◌then◌else◌, arith, length,
  length-append, take, inl, inr, Bool-cases, length-take,
}
use cedar_switch_3i3o_power.Common.CString.{Bytes, parts}
use cedar_switch_3i3o_power.Common.Format.{dec}
use cedar_switch_3i3o_power.Common.Format.Decimal.{length-dec}
use cedar_switch_3i3o_power.Mqtt.Device.{Device}
use cedar_switch_3i3o_power.Mqtt.Topics.Shape.{length-topic_base}
use cedar_switch_3i3o_power.Mqtt.Payloads.{conf_parts, conf_text, numbered_name, command_parts}

total : List Bytes → ℕ
total [] = 0
total (text ∷ texts) = length text + total texts

length-parts : (texts : List Bytes) → length (parts texts) ≡ total texts
unfolding total
length-parts [] = refl
length-parts (text ∷ texts) = omega (arith, length-append text (parts texts), length-parts texts)

pub length-numbered_name :
    (name : Bytes) (number : ℕ)
    → number < 1000
    → length (numbered_name name number) ≤ length name + 4
length-numbered_name name number h = elim (Bool-cases (number == 0)) [
  | inl plain ↦ rw (plain) (omega (arith, length-take 127 name))
  | inr numbered ↦ rw (numbered) (
      omega (
        arith,
        length-take 127 (name ++ (b' ' ∷ dec number)),
        length-append name (b' ' ∷ dec number),
        length-dec number h,
      ))
]

pub length-conf_text :
    (d : Device) (device_class comp : Bytes) (number : ℕ) (extra name : Bytes)
    → length d.identifier ≤ 31
    → length d.conf_ip ≤ 45
    → length device_class ≤ 6
    → length comp ≤ 6
    → length extra ≤ 73
    → length name ≤ 22
    → number < 1000
    → length (conf_text d device_class comp number extra name) < 700
unfolding conf_text total
length-conf_text d device_class comp number extra name id ip class c x n h =
    let expire : length (dec 600) ≤ 3 = length-dec 600 (omega arith) in
    omega (
      arith,
      length-parts (conf_parts d device_class comp number extra name),
      length-dec number h,
      expire,
      length-topic_base d comp number h,
    )

pub length-command_parts :
    (d : Device) (number : ℕ)
    → length d.identifier ≤ 31
    → number < 1000
    → length (parts (command_parts d number)) ≤ 73
unfolding total
length-command_parts d number id h =
    let digits : length (if number == 0 then [] else take 4 (dec number)) ≤ 3 =
      ground (arith, length-take 4 (dec number), length-dec number h) in
    omega (arith, length-parts (command_parts d number), digits, id)
