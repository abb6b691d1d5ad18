-- ===== src/Gateway.antt =====
-- gateway/: the connections of the users, and the handler of one connection.
pub mod Conns
pub mod Session
pub mod Delivery
pub mod Presence
pub mod Expiry
pub mod Startup
mod Tests
