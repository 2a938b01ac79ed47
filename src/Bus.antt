-- ===== src/Bus.antt =====
-- src/zbus_topics.h and src/zbus_topics.c: the messages and the channels that the tasks share. A
-- channel of the operating system holds one message. Its calls with K_NO_WAIT fail while another
-- thread holds the channel, and then change nothing: each call takes a Boolean, whether it got the
-- channel.
use Prim.Native.Nat.{bit_and, bit_or}
use cedar_switch_3i3o_power.Common.{
  ℕ, ◌*◌, ◌<◌, ◌≡◌, refl, Bool, true, false, not, ◌==◌, if◌then◌else◌, arith,
}

-- outputs_msg_t and inputs_msg_t: `seq` has 32 bits, `state` has 8.
pub record OutputsMsg : Type 0 where
  pub seq : ℕ
  pub state : ℕ

-- mqtt_status_msg_t: `seq` has 64 bits.
pub record MqttStatus : Type 0 where
  pub seq : ℕ
  pub enabled : Bool
  pub connected : Bool

-- The channels' initial values.
abbrev pub outputs_init : OutputsMsg
outputs_init = record { seq = 0; state = 0 }

abbrev pub mqtt_stat_init : MqttStatus
mqtt_stat_init = record { seq = 0; enabled = false; connected = false }

-- zbus_chan_read into a variable, and zbus_chan_pub of a message: the new contents of each.
abbrev pub chan_read {ℓ} : {A : Type ℓ} → Bool → A → A → A
chan_read got chan variable = if got then chan else variable

abbrev pub chan_pub {ℓ} : {A : Type ℓ} → Bool → A → A → A
chan_pub got message chan = if got then message else chan

-- relays_def_state of src/settings_topics.h
pub record RelaysDefState : Type 0 where
  pub enabled : Bool
  pub relay1 : Bool
  pub relay2 : Bool
  pub relay3 : Bool

-- A `bool` in an arithmetic expression.
abbrev pub bit : Bool → ℕ
bit true = 1
bit false = 0

-- relay1 << 0 | relay2 << 1 | relay3 << 2
unfoldable pub pack_relays : Bool → Bool → Bool → ℕ
pack_relays r1 r2 r3 = bit_or (bit_or (bit r1) (bit r2 * 2)) (bit r3 * 4)

-- (state & mask) ? 1 : 0
unfoldable pub has_bit : ℕ → ℕ → Bool
has_bit state mask = not (bit_and state mask == 0)

-- The three relay bits are read back as they were packed, and no other bit is set.
pub has_bit-pack_relays :
    (r1 r2 r3 : Bool)
    → (has_bit (pack_relays r1 r2 r3) 1 ≡ r1)
      × (has_bit (pack_relays r1 r2 r3) 2 ≡ r2)
      × (has_bit (pack_relays r1 r2 r3) 4 ≡ r3)
      × (pack_relays r1 r2 r3 < 8)
unfolding has_bit pack_relays
has_bit-pack_relays true true true = (refl, refl, refl, omega arith)
has_bit-pack_relays true true false = (refl, refl, refl, omega arith)
has_bit-pack_relays true false true = (refl, refl, refl, omega arith)
has_bit-pack_relays true false false = (refl, refl, refl, omega arith)
has_bit-pack_relays false true true = (refl, refl, refl, omega arith)
has_bit-pack_relays false true false = (refl, refl, refl, omega arith)
has_bit-pack_relays false false true = (refl, refl, refl, omega arith)
has_bit-pack_relays false false false = (refl, refl, refl, omega arith)
