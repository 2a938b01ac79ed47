-- ===== src/Web.antt =====
-- src/web/: the handlers of the HTTP endpoints.
pub mod Http
pub mod Buffer
pub mod Relays
pub mod Path
pub mod Query
pub mod Upload
pub mod Users
pub mod SafeState
pub mod Login
pub mod MqttSettings
pub mod Mkdir
pub mod Status
pub mod Delete
