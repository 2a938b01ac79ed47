-- ===== src/Mqtt/Adapter.antt =====
-- src/mqtt/ha_mqtt_adapter.c: the device's identifier and address, and the subscription.
pub mod Subscription
use cedar_switch_3i3o_power.Common.{
  ℕ, zero, suc, ◌+◌, ◌%◌, ◌^◌, Bool, true, false, not, Option, none, some, List, [], ◌∷◌, ◌==◌, leb,
  if◌then◌else◌, length, ℤ, pos, negsuc, is_neg, e_inval, ◌⊎◌, inl, inr,
}
use cedar_switch_3i3o_power.Common.CString.{Bytes}
use cedar_switch_3i3o_power.Mqtt.Device.{
  DevType, output_device, Device, set_device_id, set_device_conf_ip, inet6_addrstrlen,
}
use cedar_switch_3i3o_power.Mqtt.Topics.{generate_command_topik}

-- -ENODEV and -EAGAIN
abbrev pub e_no_dev : ℤ
e_no_dev = negsuc 18

abbrev pub e_again : ℤ
e_again = negsuc 10

-- `hw_id` is the answer of hwinfo_get_device_id for 32 bytes: its error, or the bytes that it gives.
unfoldable pub ha_mqtt_set_unic_id : ℤ ⊎ List ℕ → Device → ℤ × Device
ha_mqtt_set_unic_id (inl rc) d = (rc, d)
ha_mqtt_set_unic_id (inr id) d = (pos 0, (set_device_id (some id) d).1)

-- The default network interface: the text of its preferred global IPv4 address.
pub record NetIf : Type 0 where
  pub v4 : Option Bytes

-- net_addr_ntop into a buffer: NULL if the text does not fit.
abbrev pub print_addr : Bytes → ℕ → Bytes → ℤ × Bytes
print_addr text out_len out = if leb out_len (length text) then (e_inval, out) else (pos 0, text)

-- `none` is a missing interface. The configuration has CONFIG_NET_IPV4 and no CONFIG_NET_IPV6.
unfoldable pub get_default_iface_ip_str : Option NetIf → ℕ → Bytes → ℤ × Bytes
get_default_iface_ip_str iface zero out = (e_inval, out)
get_default_iface_ip_str none (suc n) out = (e_no_dev, out)
get_default_iface_ip_str (some iface) (suc n) out = elim iface.v4 [
  | some v4 ↦ print_addr v4 (suc n) out
  | none ↦ (e_again, out)
]

-- `is_ipv4` and `is_ipv6` are `inet_pton` for the two families.
module _ (is_ipv4 is_ipv6 : Bytes → Bool) where
  unfoldable pub ha_mqtt_set_dev_ip : Option NetIf → Device → ℤ × Device
  ha_mqtt_set_dev_ip iface d =
      let ip_str = get_default_iface_ip_str iface inet6_addrstrlen [] in
      let stored = set_device_conf_ip is_ipv4 is_ipv6 (some ip_str.1) d in
      if is_neg ip_str.0
      then (ip_str.0, d)
      else if is_neg stored.0
      then stored
      else (pos 0, stored.1)

  unfoldable pub ha_mqtt_init : ℤ ⊎ List ℕ → Option NetIf → Device → ℤ × Device
  ha_mqtt_init hw_id iface d =
      let named = ha_mqtt_set_unic_id hw_id d in
      let addressed = ha_mqtt_set_dev_ip iface named.1 in
      if is_neg named.0
      then named
      else if is_neg addressed.0
      then addressed
      else (pos 0, addressed.1)

-- mqtt_topic of the subscription list
pub record SubTopic : Type 0 where
  pub topic : Bytes
  pub qos : ℕ

pub record SubscriptionList : Type 0 where
  pub list : List SubTopic
  pub message_id : ℕ

abbrev pub device_relay_count : ℕ
device_relay_count = 3

-- The loop, from `i` on with so many relays to go: the topics, or the error of one.
unfoldable pub subscribe_loop : Device → ℕ → ℕ → ℤ ⊎ List SubTopic
subscribe_loop d zero i = inr []
subscribe_loop d (suc left) i =
    let made = generate_command_topik d 128 output_device ((i + 1) % 256) [] in
    let later = subscribe_loop d left (i + 1) in
    if is_neg made.0 then inl made.0 else elim later [
      | inl rc ↦ inl rc
      | inr topics ↦ inr (record { topic = made.1; qos = 2 } ∷ topics)
    ]

-- `mqtt_subscribe` is the library's call, `random` what sys_rand16_get gives.
module _ (Net : Type 0) (mqtt_subscribe : SubscriptionList → Net → ℤ × Net) where
  unfoldable pub ha_mqtt_subscribe_topiks : Device → ℕ → Net → ℤ × Net
  ha_mqtt_subscribe_topiks d random net = elim (subscribe_loop d device_relay_count 0) [
    | inl rc ↦ (rc, net)
    | inr topics ↦
        mqtt_subscribe
          (record { list = topics; message_id = if random == 0 then 1 else random % 2 ^ 16 }) net
  ]
