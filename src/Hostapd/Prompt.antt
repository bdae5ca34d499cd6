-- ===== src/Hostapd/Prompt.antt =====
-- The interactive prompt of ap_interface.c: its help, what it completes, and its callbacks.
pub mod Completing
pub mod Word
