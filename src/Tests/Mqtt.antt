-- ===== src/Tests/Mqtt.antt =====
-- The queue of outgoing messages at a concrete input.
use cedar_switch_3i3o_power.Common.{Bool, true, false, [], ◌∷◌, ℤ, pos, negsuc}
use cedar_switch_3i3o_power.Common.CString.{codes}
use cedar_switch_3i3o_power.Mqtt.Queue.{MqttMsg, PublishParam, Adapter}

-- A connection whose first publication fails.
abbrev flaky : PublishParam → Bool → ℤ × Bool
flaky p false = (negsuc 10, true)
flaky p true = (pos 0, true)

abbrev on : MqttMsg
on = record { topic = codes "relay/1"; payload = codes "ON"; qos = 1; retain = false }

abbrev nameless : MqttMsg
nameless = record on { topic = [] }

abbrev off : MqttMsg
off = record on { payload = codes "OFF"; qos = 0 }

abbrev waiting : Adapter Bool flaky
waiting = record { queue = on ∷ nameless ∷ off ∷ []; next_mid = 65535; net = false }
