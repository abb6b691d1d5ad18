-- ===== src/MessageService.antt =====
-- message-service/: the sequence numbers (PTS) in Redis, the messages in Postgres, and the gRPC
-- handlers over both.
pub mod Keys
pub mod Redis
pub mod Schema
pub mod DiffQuery
pub mod Postgres
pub mod Migrations
pub mod Persist
pub mod Cluster
pub mod DbCheck
pub mod Diff
pub mod Pool
pub mod Concurrent
pub mod Sync
pub mod Sim
pub mod Http
pub mod Startup
mod Tests
