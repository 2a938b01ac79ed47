-- ===== src/Mqtt/Topics/Shape.antt =====
-- The topics of src/mqtt/ha_mqtt_helpers.c are not cut, and their parts are where a reader looks
-- for them.
use mathlib.Core.List.{append_assoc}
use cedar_switch_3i3o_power.Common.{
  ℕ, ◌+◌, ◌≤◌, ◌<◌, ◌≡◌, refl, ◌∙◌, ap, Bool, true, false, [], ◌∷◌, ◌++◌, arith, length,
  if◌then◌else◌, length-append, take_of_length-le,
}
use cedar_switch_3i3o_power.Common.CString.{Bytes, codes, bytes_eq}
use cedar_switch_3i3o_power.Common.Format.{dec}
use cedar_switch_3i3o_power.Common.Format.Decimal.{length-dec}
use cedar_switch_3i3o_power.Mqtt.Device.{DevType, input_sensor, output_device, Device}
use cedar_switch_3i3o_power.Mqtt.Topics.{
  dev_system, component_input, component_switch, topic_base, print_into, get_status_topik_string,
  generate_command_topik,
}

-- What stands before the slash of a topic.
abbrev pub topic_prefix : Device → Bytes
topic_prefix d = dev_system ++ (b'_' ∷ d.identifier)

pub topic_base-append :
    (d : Device) (component : Bytes) (number : ℕ) (rest : Bytes)
    → topic_base d component number ++ rest
      ≡ topic_prefix d ++ (b'/' ∷ (component ++ (dec number ++ rest)))
unfolding topic_base
topic_base-append d component number rest =
    ap (λ s. dev_system ++ (b'_' ∷ s))
      (append_assoc d.identifier (b'/' ∷ (component ++ dec number)) rest
        ∙ ap (λ s. d.identifier ++ (b'/' ∷ s)) (append_assoc component (dec number) rest))

pub length-topic_base :
    (d : Device) (component : Bytes) (number : ℕ)
    → number < 1000
    → length (topic_base d component number) ≤ 10 + length d.identifier + length component
unfolding topic_base
length-topic_base d component number h = omega (
  arith,
  length-append d.identifier (b'/' ∷ (component ++ dec number)),
  length-append component (dec number),
  length-dec number h,
)

-- A text that fits the array is printed whole.
pub print_into_all : (size : ℕ) (text : Bytes) → length text < size → print_into size text ≡ text
print_into_all size text h = take_of_length-le _ text (omega arith)

pub generate_command_topik_lem :
    (d : Device) (number : ℕ) (buff : Bytes)
    → length d.identifier ≤ 31
    → number < 1000
    → (generate_command_topik d 128 output_device number buff).1
      ≡ topic_base d component_switch number ++ codes "/set"
unfolding generate_command_topik
generate_command_topik_lem d number buff id h =
    let text = topic_base d component_switch number ++ codes "/set" in
    print_into_all 128 text (
      omega (
        arith,
        length-append (topic_base d component_switch number) (codes "/set"),
        length-topic_base d component_switch number h,
        id,
      ))

-- The component of a sensor's or a relay's topic.
abbrev pub component : Bool → Bytes
component relay = if relay then component_switch else component_input

abbrev pub io_type : Bool → DevType
io_type relay = if relay then output_device else input_sensor

bytes_eq-append : (p a b : Bytes) → bytes_eq (p ++ a) (p ++ b) ≡ bytes_eq a b
unfolding bytes_eq
bytes_eq-append [] a b = refl
bytes_eq-append (x ∷ p) a b = ground (arith, bytes_eq-append p a b)

bytes_eq_same_head : (a b : Bytes) → bytes_eq (b'/' ∷ a) (b'/' ∷ b) ≡ bytes_eq a b
unfolding bytes_eq
bytes_eq_same_head a b = refl

-- What stands after the slash of a status topic.
abbrev pub status_suffix : Bool → ℕ → Bytes
status_suffix relay number = component relay ++ (dec number ++ codes "/state")

abbrev pub status_topic : Device → Bool → ℕ → Bytes
status_topic d relay number = (get_status_topik_string d 128 (io_type relay) number).1

status_topic_text :
    (d : Device) (relay : Bool) (number : ℕ)
    → (status_topic d relay number)
      ≡ print_into 128 (topic_base d (component relay) number ++ codes "/state")
unfolding get_status_topik_string
status_topic_text d true number = refl
status_topic_text d false number = refl

-- It is not cut.
pub status_topic_base :
    (d : Device) (relay : Bool) (number : ℕ)
    → length d.identifier ≤ 31
    → number < 1000
    → status_topic d relay number ≡ topic_base d (component relay) number ++ codes "/state"
status_topic_base d relay number id h =
    let text = topic_base d (component relay) number ++ codes "/state" in
    let short : length (component relay) ≤ 6 = ground arith in
    status_topic_text d relay number
    ∙ print_into_all 128 text (
        omega (
          arith,
          length-append (topic_base d (component relay) number) (codes "/state"),
          length-topic_base d (component relay) number h,
          short,
          id,
        ))

status_topic_lem :
    (d : Device) (relay : Bool) (number : ℕ)
    → length d.identifier ≤ 31
    → number < 1000
    → status_topic d relay number ≡ topic_prefix d ++ (b'/' ∷ status_suffix relay number)
status_topic_lem d relay number id h =
    status_topic_base d relay number id h
    ∙ topic_base-append d (component relay) number (codes "/state")

-- Two status topics are compared by their components and numbers.
pub bytes_eq-status_topic :
    (d : Device) (relay other : Bool) (number n : ℕ)
    → length d.identifier ≤ 31
    → number < 1000
    → n < 1000
    → bytes_eq (status_topic d relay number) (status_topic d other n)
      ≡ bytes_eq (status_suffix relay number) (status_suffix other n)
bytes_eq-status_topic d relay other number n id h k =
    rw (status_topic_lem d relay number id h, status_topic_lem d other n id k)
      (bytes_eq-append (topic_prefix d) _ _ ∙ bytes_eq_same_head _ _)
