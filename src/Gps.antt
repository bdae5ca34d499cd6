-- ===== src/Gps.antt =====
-- gpsmod.c, and the thread of transmit.c that reads from gpsd.
mod Defs
pub mod Update
pub mod Retries
unfoldable pub use Defs.*
