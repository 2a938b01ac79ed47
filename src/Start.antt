-- ===== src/Start.antt =====
-- src/main.c and what it calls: the start of the device, and the start of the network services when
-- an address comes.
pub mod Files
pub mod Main
pub mod Network
pub mod Overwritten
pub mod Boot
pub mod Again
