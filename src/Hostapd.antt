-- ===== src/Hostapd.antt =====
-- ap_interface.c: the connection to hostapd, the command table and the commands.
pub mod Table
pub mod Search
pub mod Help
pub mod Prompt
pub mod Control
pub mod Waiting
pub mod Interfaces
pub mod Noticing
pub mod Watching
pub mod Events
pub mod Connection
pub mod Protocol
pub mod Reconnecting
pub mod Walking
pub mod Commands
pub mod Appending
pub mod Handling
pub mod Startup
