-- ===== src/Mqtt.antt =====
-- src/mqtt/: the client that reports to the home automation server.
pub mod Queue
pub mod Device
pub mod Topics
pub mod Payloads
pub mod Incoming
pub mod Adapter
pub mod Setup
pub mod Client
pub mod Report
pub mod Events
pub mod Task
pub mod Broker
pub mod Packet
