-- ===== src/Machine.antt =====
-- The machine that the program runs on: what it has done so far, the state that its threads and
-- files share, and what the libraries and the kernel answer. The libraries (BlueZ, hostapd's
-- wpa_ctrl, libc) are not part of the sources, so what they answer is a parameter.
mod Defs
mod Laws
unfoldable pub use Defs.*
pub use Laws.*
