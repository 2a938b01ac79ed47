-- ===== src/Mqtt/Payloads/Parts.antt =====
-- The topics in the templates of src/mqtt/ha_mqtt_helpers.c for announcements.
use mathlib.Core.List.{append_assoc, append-nil}
use cedar_switch_3i3o_power.Common.{
  ℕ, zero, suc, ◌≤◌, ◌<◌, ◌≡◌, refl, ◌∙◌, sym, ap, Bool, false, List, [], ◌∷◌, ◌++◌, ◌==◌, arith,
  length, take, drop, take_of_length-le,
}
use cedar_switch_3i3o_power.Common.CString.{Bytes, codes, parts}
use cedar_switch_3i3o_power.Common.Format.{dec}
use cedar_switch_3i3o_power.Common.Format.Decimal.{length-dec}
use cedar_switch_3i3o_power.Mqtt.Device.{Device}
use cedar_switch_3i3o_power.Mqtt.Topics.{component_switch, topic_base}
use cedar_switch_3i3o_power.Mqtt.Topics.Shape.{
  component, status_topic, status_topic_base, print_into_all,
}
use cedar_switch_3i3o_power.Mqtt.Payloads.{conf_parts, conf_text, command_parts, command_part}
use cedar_switch_3i3o_power.Mqtt.Payloads.Length.{length-command_parts}

-- The list of parts, split in three.
parts_within :
    (k m : ℕ) (texts : List Bytes)
    → parts texts
      ≡ parts (take k texts) ++ (parts (take m (drop k texts)) ++ parts (drop m (drop k texts)))
parts_within zero zero texts = refl
parts_within zero (suc m) [] = refl
parts_within zero (suc m) (x ∷ texts) =
    ap (λ s. x ++ s) (parts_within zero m texts)
    ∙ sym (append_assoc x (parts (take m texts)) (parts (drop m texts)))
parts_within (suc k) zero [] = refl
parts_within (suc k) (suc m) [] = refl
parts_within (suc k) m (x ∷ texts) =
    ap (λ s. x ++ s) (parts_within k m texts) ∙ sym (append_assoc x (parts (take k texts)) _)

-- The text has the part in it.
abbrev pub Contains : Bytes → Bytes → Type 0
Contains whole part = (before : Bytes) × (after : Bytes) × (whole ≡ before ++ (part ++ after))

pub Contains-trans : (a b c : Bytes) → Contains a b → Contains b c → Contains a c
Contains-trans a b c (p, q, e) (r, s, f) = (
  p ++ r,
  (s ++ q),
  e
      ∙ ap (λ x. p ++ (x ++ q)) f
      ∙ ap (λ x. p ++ x) (append_assoc r (c ++ s) q)
      ∙ ap (λ x. p ++ (r ++ x)) (append_assoc c s q)
      ∙ sym (append_assoc p r (c ++ (s ++ q))),
)

-- A member of the announcement that gives a topic.
abbrev pub named_topic : Bytes → Bytes → Bytes
named_topic name topic = name ++ (topic ++ codes "\"")

pub state_topic_within :
    (d : Device) (device_class : Bytes) (relay : Bool) (number : ℕ) (extra name : Bytes)
    → length d.identifier ≤ 31
    → number < 1000
    → Contains
        (conf_text d device_class (component relay) number extra name)
        (named_topic (codes "\"state_topic\" :\"") (status_topic d relay number))
unfolding conf_text
state_topic_within d device_class relay number extra name id h =
    let texts = conf_parts d device_class (component relay) number extra name in
    let base = topic_base d (component relay) number in
    (
      parts (take 5 texts),
      parts (drop 9 texts),
      rw (status_topic_base d relay number id h, append_assoc base (codes "/state") (codes "\""))
          (parts_within 5 4 texts),
    )

pub extra_within :
    (d : Device) (device_class comp : Bytes) (number : ℕ) (extra name : Bytes)
    → Contains (conf_text d device_class comp number extra name) extra
unfolding conf_text
extra_within d device_class comp number extra name =
    let texts = conf_parts d device_class comp number extra name in
    (
      parts (take 13 texts),
      parts (drop 14 texts),
      parts_within 13 1 texts
          ∙ ap (λ s. parts (take 13 texts) ++ (s ++ parts (drop 14 texts))) (append-nil extra),
    )

-- The part with the command topic is not cut either, for a relay with a number.
pub command_part_lem :
    (d : Device) (number : ℕ)
    → length d.identifier ≤ 31
    → 1 ≤ number
    → number < 1000
    → command_part d number
      ≡ named_topic
          (codes "\"command_topic\" : \"")
          (topic_base d component_switch number ++ codes "/set")
        ++ codes ",\n"
unfolding command_part topic_base
command_part_lem d number id low h =
    let numbered : (number == 0) ≡ false = ground arith in
    let digits : take 4 (dec number) ≡ dec number =
      take_of_length-le 4 (dec number) (omega (arith, length-dec number h)) in
    print_into_all 128 (parts (command_parts d number))
      (omega (arith, length-command_parts d number id h))
    ∙ rw (numbered, digits) (simp append_assoc refl)
