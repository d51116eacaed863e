-- ===== src/CsSquirrel.antt =====
-- The sans-IO squirrel protocol (haysel/cs_squirrel).
pub mod Cursor
pub mod Uid
pub mod Packet
pub mod Env
pub mod Server
pub mod Client
mod Tests
