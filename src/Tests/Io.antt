-- ===== src/Tests/Io.antt =====
-- src/io/io.c at concrete inputs.
use cedar_switch_3i3o_power.Common.{◌≡◌, refl, Bool, true, false, none, some, [], ◌∷◌, ◌++◌}
use cedar_switch_3i3o_power.Bus.{OutputsMsg, MqttStatus, RelaysDefState, mqtt_stat_init}
use cedar_switch_3i3o_power.Io.Task.{
  write_relays_once, IoState, Seen, io_task_init, io_round, io_rounds,
}
use cedar_switch_3i3o_power.Io.Safety.{IsApplied, wanted, io_round_enabled, io_rounds_latched}
use cedar_switch_3i3o_power.Tests.World.{memory}

-- The safe state: only the second relay.
abbrev def : RelaysDefState
def = record { enabled = true; relay1 = false; relay2 = true; relay3 = false }

abbrev lost : MqttStatus
lost = record { seq = 7; enabled = true; connected = false }

abbrev all_on : OutputsMsg
all_on = record { seq = 1; state = 7 }

abbrev seen_lost : Seen
seen_lost = record { got_outputs = true; outputs = all_on; got_status = true; status = lost }

-- The first round of a device: the status channel holds its initial value.
abbrev seen_first : Seen
seen_first = record seen_lost { status = mqtt_stat_init }

abbrev started : IoState
started = record {
  applied_state = 0;
  mqtt_status_msg = record { seq = 0; enabled = true; connected = false };
  pins = record { relay1 = false; relay2 = false; relay3 = false };
}

started_lem : io_task_init (memory Bool) true (some true) ≡ some started
unfolding io_task_init
started_lem = refl

not_started : io_task_init (memory Bool) false (some true) ≡ none
unfolding io_task_init
not_started = refl

started-IsApplied : IsApplied started
unfolding write_relays_once
started-IsApplied = refl

io_round_enabled_example : (io_round def seen_lost started).pins ≡ wanted def lost all_on
io_round_enabled_example =
    io_round_enabled def seen_lost started started-IsApplied refl refl refl refl

-- The client is lost in the last round, and the relays still follow the message.
io_rounds_latched_example :
    (io_rounds def (seen_first ∷ (seen_lost ∷ []) ++ seen_lost ∷ []) started).pins
    ≡ write_relays_once 7
io_rounds_latched_example =
    io_rounds_latched def seen_first seen_lost (seen_lost ∷ []) started started-IsApplied refl refl
      refl refl refl refl
