-- ===== src/Squirrel.antt =====
-- The squirrel transport (haysel/squirrel/src/transport.rs and its modules): a request-response
-- protocol over UDP between a weather station (the client) and the server.
pub mod Packet
pub mod Wire
pub mod Server
pub mod Shared
pub mod Client
pub mod Link
mod Tests
