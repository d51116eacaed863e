-- ===== src/Lightning/Repr.antt =====
-- The values of the sensor's registers (hayselnut/src/lightning/repr.rs).
mod Events
mod Settings
mod Flags
unfoldable pub use Events.*
unfoldable pub use Settings.*
unfoldable pub use Flags.*
