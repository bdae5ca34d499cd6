-- ===== src/Hostapd/Commands.antt =====
-- The handlers of ap_interface.c, and `wpa_request`, which runs them.
mod Format
mod Plain
mod Basic
mod Network
mod Dpp
mod Optional
mod Stations
mod Dispatch
unfoldable pub use Format.*
unfoldable pub use Plain.*
unfoldable pub use Basic.*
unfoldable pub use Network.*
unfoldable pub use Dpp.*
unfoldable pub use Optional.*
unfoldable pub use Stations.*
unfoldable pub use Dispatch.*
