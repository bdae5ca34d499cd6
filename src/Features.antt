-- ===== src/Features.antt =====
-- print_bt_features.c: the feature mask of the controller, decoded and printed.
mod Defs
pub mod Mask
pub mod Colors
unfoldable pub use Defs.*
