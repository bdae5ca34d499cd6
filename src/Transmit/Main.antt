-- ===== src/Transmit/Main.antt =====
-- `main`, `cleanup` and `sig_handler` of transmit.c. The thread of `gps_loop` acts on the data
-- and on `kill_program` while the main thread transmits: what the main thread finds of it before
-- each round is a list (what the GPS thread itself does is in Gps).
use transmitter_linux.Common.{
  ℕ, Bool, true, false, not, ◌&&◌, ◌||◌, Option, none, some, List, [], ◌∷◌, ◌==◌, if◌then◌else◌,
}
use transmitter_linux.Machine.{
  done, blocked, M, ◌>>=◌, ◌>>◌, when, say, emit, exit, undefined, exit_success, exit_failure, Env,
  gps_closed, gps_unavailable, transmitting,
}
use transmitter_linux.Utils.{Config}
use transmitter_linux.Odid.{Odid, UasData}
use transmitter_linux.Gps.{Gpsd, init_gps}
use transmitter_linux.Bluetooth.Api.{init_bluetooth, close_bluetooth}
use transmitter_linux.Hostapd.Table.{Handler}
use transmitter_linux.Hostapd.Control.{sem_wait}
use transmitter_linux.Hostapd.Startup.{Startup, ap_interface_init}
use transmitter_linux.Beacon.{send_quit}
use transmitter_linux.Transmit.Args.{parse_command_line, zero_config}
use transmitter_linux.Transmit.Example.{fill_example_data, fill_example_gps_data}
use transmitter_linux.Transmit.Send.{send_single_messages, send_packs}

pub data Signal : Type 0 where
  sigint sigstop sigkill sigterm other_signal : Signal

-- `kill_program` after the handler has run.
unfoldable pub sig_handler : Signal → Bool → Bool
sig_handler other_signal kill_program = kill_program
sig_handler _ kill_program = true

abbrev pub any_bluetooth : Config → Bool
any_bluetooth config = config.use_btl || config.use_bt4 || config.use_bt5

-- `sem_init(&semaphore, 0, 0)`
abbrev sem_init : M (Unit {0})
sem_init w = done tt (record w { semaphore = 0 })

-- The block of `main` for `use_beacon`: the thread runs up to its `sem_post`.
unfoldable pub start_beacon : Env → Startup → M (Unit {0})
start_beacon env startup = do sem_init; ap_interface_init env startup; sem_wait

module _ (env : Env) (other : Handler → List (List ℕ) → M Bool) where
  -- `gps_thread_started` says whether `gps_thread` names a thread: to join one that was never
  -- created is undefined. The join of the other thread returns, since `quit` has ended its loop.
  unfoldable pub cleanup : Bool → Config → ℕ → M (Unit {0})
  cleanup gps_thread_started config exit_code = do
    when (any_bluetooth config) (close_bluetooth env config)
    when config.use_beacon (send_quit env other)
    when (config.use_gps && not gps_thread_started) undefined
    when config.use_gps (emit gps_closed)
    exit exit_code

  module _ {F : Type 0} (odid : Odid F) where
    unfoldable pub transmit_once : UasData F → Config → M Config
    transmit_once u config =
        if config.use_packs
        then send_packs env other odid u config
        else send_single_messages env other odid u config

    -- `while (true) { if (kill_program) break; … }`: for each round the data that it finds, or
    -- `none` if `kill_program` is set. With no round left it still goes on.
    unfoldable pub transmit_loop : List (Option (UasData F)) → Config → M Config
    unfolding transmit_once
    transmit_loop [] config w = blocked w
    transmit_loop (none ∷ rounds) config w = done config w
    transmit_loop (some u ∷ rounds) config w =
        (say transmitting >>= λ _. (transmit_once u config >>= λ c. transmit_loop rounds c)) w

    -- The branch of `main` for `use_gps`.
    unfoldable pub transmit_with_gps : Gpsd → List (Option (UasData F)) → Config → M (Unit {0})
    unfolding transmit_loop
    transmit_with_gps gpsd rounds config = do
      failed ← init_gps gpsd
      when (not (failed == 0)) (say gps_unavailable >> cleanup false config exit_failure)
      config ← transmit_loop rounds config
      cleanup true config exit_success

    unfoldable pub transmit_without_gps : UasData F → Config → M (Unit {0})
    unfolding transmit_once
    transmit_without_gps u config = do
      config ← transmit_once u config
      cleanup false config exit_success

    -- The data that is set before anything is sent.
    unfoldable pub example_data : Config → UasData F
    example_data config =
        let u = fill_example_data odid odid.init_uas_data in
        if config.use_gps then u else fill_example_gps_data odid u

    -- `config.handle_bt4 = 0; config.handle_bt5 = 1;`
    abbrev pub set_handles : Config → Config
    set_handles config = record config { handle_bt4 = 0; handle_bt5 = 1 }

    unfoldable pub main : Startup → Gpsd → List (Option (UasData F)) → List (List ℕ) → M (Unit {0})
    unfolding transmit_with_gps transmit_without_gps
    main startup gpsd rounds args = do
      parsed ← parse_command_line args zero_config
      let config = set_handles parsed
      when config.use_beacon (start_beacon env startup)
      when (any_bluetooth config) (init_bluetooth env config)
      if config.use_gps
          then transmit_with_gps gpsd rounds config
          else transmit_without_gps (example_data config) config
