-- ===== src/Bluetooth.antt =====
-- bluetooth.c: the HCI commands for the three kinds of Bluetooth advertising.
pub mod Buffers
pub mod Layout
pub mod Fitting
mod Hci
pub mod Api
pub mod Trace
pub mod Controller
pub mod Btmgmt
pub mod AddAdv
pub mod Keeping
pub mod Events
pub mod Takes
pub mod Answers
unfoldable pub use Hci.*
