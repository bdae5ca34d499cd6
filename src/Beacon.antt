-- ===== src/Beacon.antt =====
-- wifi_beacon.c: messages as vendor specific elements of the beacons that hostapd sends.
mod Defs
pub mod Elements
pub mod Served
pub mod Answering
unfoldable pub use Defs.*
