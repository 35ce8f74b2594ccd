-- ===== src/GrpcServer.antt =====
-- internal/grpcserver: the server's side of project removals. The database is a parameter: what its
-- queries answer.
pub mod Sync
pub mod Heartbeat
pub mod Events
pub mod Version
mod Tests
