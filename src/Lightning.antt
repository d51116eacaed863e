-- ===== src/Lightning.antt =====
-- The driver of the lightning sensor (hayselnut/src/lightning).
pub mod Bits
pub mod Repr
pub mod Registers
pub mod Sensor
pub mod Driver
pub mod Wires
pub mod Frames
pub mod Transactions
pub mod Writes
pub mod Reads
mod Tests
