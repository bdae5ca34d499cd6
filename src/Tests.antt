-- ===== src/Tests.antt =====
-- Concrete inputs on which the code is run and its theorems are applied.
mod Setup
mod Radio
mod Beacons
mod Program
pub mod Hostapd
mod Prompt
mod Threads
mod Controller
