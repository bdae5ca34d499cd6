-- ===== src/Transmit/Props/Whole.antt =====
-- How the program ends.
use transmitter_linux.Common.{ℕ, ◌≡◌, Bool, true, false, List, [], ◌∷◌, ◌++◌, Option, arith}
use transmitter_linux.Machine.{
  World, done, fault, M, ◌>>◌, when, Env, exit_failure, printed, gps_unavailable,
}
use transmitter_linux.Utils.{Config}
use transmitter_linux.Odid.{Odid, UasData}
use transmitter_linux.Gps.{Gpsd, init_gps}
use transmitter_linux.Bluetooth.Api.{close_bluetooth}
use transmitter_linux.Beacon.{send_quit}
use transmitter_linux.Hostapd.Table.{Handler}
use transmitter_linux.Transmit.Main.{cleanup, transmit_with_gps, any_bluetooth}

module _ (env : Env) (other : Handler → List (List ℕ) → M Bool) where
  -- What `cleanup` does before it comes to the GPS thread.
  abbrev pub stop_transports : Config → M (Unit {0})
  stop_transports c =
      when (any_bluetooth c) (close_bluetooth env c) >> when c.use_beacon (send_quit env other)

  cleanup-fault :
      (c : Config) (code : ℕ) (w w' : World)
      → c.use_gps ≡ true
      → stop_transports c w ≡ done tt w'
      → cleanup env other false c code w ≡ fault w'
  unfolding cleanup
  cleanup-fault c code w w' gps stopped = ground arith

  module _ {F : Type 0} (odid : Odid F) where
    -- When gpsd cannot be opened and the transports that are in use can be stopped, the program
    -- joins the thread `gps_thread`, which was never created: its behaviour is undefined, for
    -- every configuration that uses GPS.
    pub transmit_with_gps_unavailable :
        (gpsd : Gpsd) (rounds : List (Option (UasData F))) (c : Config) (w w' : World)
        → gpsd.opens ≡ false
        → c.use_gps ≡ true
        → stop_transports c (record w { out = w.out ++ (printed gps_unavailable ∷ []) })
          ≡ done tt w'
        → transmit_with_gps env other odid gpsd rounds c w ≡ fault w'
    unfolding transmit_with_gps init_gps
    transmit_with_gps_unavailable gpsd rounds c w w' closed gps stopped = ground (
      arith,
      cleanup-fault c exit_failure (record w { out = w.out ++ (printed gps_unavailable ∷ []) }) w'
          gps stopped,
    )
