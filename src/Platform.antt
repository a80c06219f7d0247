-- ===== src/Platform.antt =====
-- The services that the program calls and does not implement, as interfaces.
pub mod Table
pub mod Redis
pub mod Counters
pub mod InMemory
pub mod EventBus
