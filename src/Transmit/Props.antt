-- ===== src/Transmit/Props.antt =====
-- What holds of the command line, of the counters, of packs and of the whole program.
pub mod CommandLine
pub mod Counting
pub mod PackRounds
pub mod Packing
pub mod Returning
pub mod Exiting
pub mod OnAir
pub mod Silence
pub mod Whole
pub mod OverWifi
pub mod WifiPacks
pub mod WifiRun
pub mod WifiMain
