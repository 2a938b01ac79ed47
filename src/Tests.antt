-- ===== src/Tests.antt =====
-- The theorems at concrete inputs.
mod World
mod Auth
mod Io
mod Web
mod Login
mod SafeState
mod Settings
mod Mqtt
mod Events
mod Littlefs
mod Client
mod Cells
mod HomeAssistant
mod Start
mod Diag
mod Users
mod Broker
mod Packet
