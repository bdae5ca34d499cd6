-- ===== src/Transmit/Props/WifiRun.antt =====
-- A whole run over Wi-Fi: packs or single messages, and the end of the program.
use transmitter_linux.Common.{
  ℕ, ◌≡◌, refl, ◌∙◌, Bool, true, false, ◌&&◌, List, ◌++◌, if◌then◌else◌, arith,
}
use transmitter_linux.Machine.{World, done, exited, M, ◌>>=◌, when, Env, exit_success, >>=-done}
use transmitter_linux.Utils.{Config}
use transmitter_linux.Odid.{Odid, UasData}
use transmitter_linux.Hostapd.Table.{Handler}
use transmitter_linux.Beacon.Answering.Progress.{own, Alive, Serving, Serving-if, Serving-done}
use transmitter_linux.Beacon.Answering.Rounds.{send_quit-Returns}
use transmitter_linux.Transmit.Main.{cleanup, any_bluetooth, transmit_once, transmit_without_gps}
use transmitter_linux.Transmit.Props.OverWifi.{
  OnlyWifi, single_requests, advanced, send_single_messages-Serving,
}
use transmitter_linux.Transmit.Props.WifiPacks.{
  packs_counted, PackFits, packed_requests, send_packs-Serving,
}

pub when_off :
    {B : Type 0} (b : Bool) (m : M (Unit {0})) (k : M B) (w : World)
    → b ≡ false
    → (when b m >>= λ _. k) w ≡ k w
when_off true m k w e = absurd (ground (arith, e))
when_off false m k w e = refl

pub when_on :
    {B : Type 0} (b : Bool) (m : M (Unit {0})) (k : M B) (w v : World)
    → b ≡ true
    → m w ≡ done tt v
    → (when b m >>= λ _. k) w ≡ k v
when_on true m k w v e returned = >>=-done m (λ _. k) returned
when_on false m k w v e returned = absurd (ground (arith, e))

module _ (env : Env) (other : Handler → List (List ℕ) → M Bool) {F : Type 0} (odid : Odid F) where
  -- What one call of `transmit_once` requests.
  abbrev pub run_requests : UasData F → Config → List (List ℕ)
  run_requests u config =
      if config.use_packs
      then packed_requests env other odid u config
      else single_requests env other odid u config.msg_counters

  abbrev after_run : Config → Config
  after_run config =
      if config.use_packs then packs_counted 10 config else advanced env other odid config

  after_only :
      (config : Config)
      → OnlyWifi config
      → (b : Bool)
      → OnlyWifi (if b then packs_counted 10 config else advanced env other odid config)
  after_only config only true = record {
    beacon = only.beacon;
    btl = only.btl;
    bt4 = only.bt4;
    bt5 = only.bt5;
  }
  after_only config only false = record {
    beacon = only.beacon;
    btl = only.btl;
    bt4 = only.bt4;
    bt5 = only.bt5;
  }

  after_gps :
      (config : Config)
      → config.use_gps ≡ false
      → (b : Bool)
      → (if b then packs_counted 10 config else advanced env other odid config).use_gps ≡ false
  after_gps config gps true = gps
  after_gps config gps false = gps

  transmit_once-Serving :
      (u : UasData F) (config : Config)
      → OnlyWifi config
      → PackFits env other odid u
      → Serving (run_requests u config) (after_run config) (transmit_once env other odid u config)
  unfolding transmit_once
  transmit_once-Serving u config only fits =
      Serving-if config.use_packs _ _ (packs_counted 10 config) (advanced env other odid config) _ _
        (send_packs-Serving env other odid u config only fits)
        (send_single_messages-Serving env other odid u config only)

  cleanup_quits :
      (config : Config) (code : ℕ) (w : World)
      → OnlyWifi config
      → config.use_gps ≡ false
      → Alive w
      → (v : World) × (cleanup env other false config code w ≡ exited code v)
        × (own v.out ≡ own w.out)
  unfolding cleanup
  cleanup_quits config code w only gps alive =
      let (v, quit, none_own, told) = send_quit-Returns env other w alive in
      (
        v,
        when_off (any_bluetooth config) _ _ w (ground (arith, only.btl, only.bt4, only.bt5))
            ∙ when_on config.use_beacon _ _ w v only.beacon quit
            ∙ when_off (config.use_gps && true) _ _ v (ground (arith, gps))
            ∙ when_off config.use_gps _ _ v gps,
        none_own,
      )

  -- With Wi-Fi beacons and nothing else, while the connection to hostapd stands, the event loop
  -- goes on and hostapd answers every ping, whatever it answers to the program's commands and
  -- whenever the other thread runs, and where a pack states no more messages than a pack can
  -- have, at most 9: the part of `main` that sends and cleans up exits with code 0, and its own
  -- requests are just the nine messages of the data with the counters of their types, or the
  -- pack of these ten times with a counter that goes up, each followed by `UPDATE_BEACON`.
  pub transmit_without_gps-Serves :
      (u : UasData F) (config : Config) (w : World)
      → OnlyWifi config
      → config.use_gps ≡ false
      → PackFits env other odid u
      → Alive w
      → (v : World) × (transmit_without_gps env other odid u config w ≡ exited exit_success v)
        × (own v.out ≡ own w.out ++ run_requests u config)
  unfolding transmit_without_gps
  transmit_without_gps-Serves u config w only gps fits alive =
      let (v, once, first) =
        Serving-done (transmit_once env other odid u config w)
          ((transmit_once-Serving u config only fits).serves w alive) in
      let (v', ended, last) =
        cleanup_quits (after_run config) exit_success v (after_only config only config.use_packs)
          (after_gps config gps config.use_packs) first.alive in
      (
        v',
        >>=-done (transmit_once env other odid u config)
              (λ c. cleanup env other false c exit_success) once
            ∙ ended,
        last ∙ first.requested,
      )
