-- ===== src/Utils.antt =====
-- utils.h and utils.c: the configuration that all parts share, and bytes as hexadecimal text.
mod Ascii
pub mod Hex
pub mod Text
unfoldable pub use Ascii.*
