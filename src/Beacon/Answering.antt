-- ===== src/Beacon/Answering.antt =====
-- wifi_beacon.c while hostapd answers: its functions return.
pub mod Progress
pub mod Rounds
pub mod Messages
