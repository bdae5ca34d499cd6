-- ===== src/Tests/Threads.antt =====
-- The threads of transmit.c and the types of the commands on concrete inputs.
use transmitter_linux.Common.{ℕ, zero, suc, ◌+◌, ◌≤◌, ◌≡◌, refl, true, arith, replicate}
use transmitter_linux.Bluetooth.Api.{
  init_bluetooth, send_bluetooth_message, send_bluetooth_message_extended_api,
  send_bluetooth_message_pack, close_bluetooth,
}
use transmitter_linux.Bluetooth.Fitting.{IsBytes}
use transmitter_linux.Bluetooth.Trace.Typed.{FittedWorld}
use transmitter_linux.Bluetooth.Trace.Fitted.{hci_send_cmd-Fitted}
use transmitter_linux.Transmit.Main.{sigint, sigterm, sig_handler}
use transmitter_linux.Transmit.Threads.{
  Threads, started, Run, gps_goes_on, gps_read, main_goes_on, here, move, signal, gps_processed,
  gps_sees_kill, main_begins, main_sent, main_leaves, processing, going, left_loop, exited_with,
}
use transmitter_linux.Transmit.Threads.Turns.{Explained, Run-Explained}
use transmitter_linux.Transmit.Threads.Stopping.{rounds_left, EndsOrMoves, Run-Ends}
use transmitter_linux.Tests.Setup.{
  test_env, test_odid, test_gpsd, test_data, test_fix, pack_config, init_world, test_message,
}

-- A report is read, `main` sees the flag clear, and a signal comes before its round.
abbrev signalled_threads : Threads
signalled_threads = record started { kill_program = true; gps = processing; main_thread = going }

signalled_Run : Run started 3 signalled_threads
unfolding sig_handler
signalled_Run =
    signal sigint
      (move (move (move here (gps_goes_on refl refl)) (gps_read refl)) (main_goes_on refl refl))

Run-Explained_example : Explained test_odid test_gpsd test_data signalled_threads
Run-Explained_example =
    Run-Explained test_odid test_gpsd test_data (test_fix 3) 3 signalled_threads signalled_Run

-- The round is still sent.
abbrev ended_threads : Threads
ended_threads = record signalled_threads {
  main_thread = left_loop;
  gps = exited_with 0;
  rounds = 1;
}

Run-Ends_example :
    (ended_threads.kill_program ≡ true)
    × (ended_threads.rounds + rounds_left ended_threads.main_thread
        ≡ signalled_threads.rounds + rounds_left signalled_threads.main_thread)
    × (5 ≤ 6)
    × EndsOrMoves ended_threads
unfolding sig_handler
Run-Ends_example = Run-Ends signalled_threads ended_threads 5 refl (
    move
      (move
        (signal sigterm
          (move (move (move here (main_begins refl)) (gps_processed refl)) (main_sent refl)))
        (gps_sees_kill refl refl))
      (main_leaves refl refl))

-- A pack of sevens.
sevens : (n : ℕ) → IsBytes (replicate n 7)
sevens zero = tt
sevens (suc n) = (omega arith, sevens n)

hci_send_cmd-Fitted_example :
    FittedWorld (init_bluetooth test_env pack_config init_world)
    × FittedWorld (send_bluetooth_message test_env test_message 7 pack_config init_world)
    × FittedWorld
        (send_bluetooth_message_extended_api test_env test_message 7 pack_config init_world)
    × FittedWorld
        (send_bluetooth_message_pack test_env 9 (replicate 228 7) 7 pack_config init_world)
    × FittedWorld (close_bluetooth test_env pack_config init_world)
hci_send_cmd-Fitted_example =
    hci_send_cmd-Fitted test_env pack_config 3 7 9 test_message (replicate 228 7) init_world refl
      refl (omega arith) (omega arith) (omega arith) (ground arith) (sevens 228) (omega arith) tt
