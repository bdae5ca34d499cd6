-- ===== src/Transmit/Threads.antt =====
-- The two threads of transmit.c that share `kill_program` while the program uses GPS, and the
-- signals, step by step in any order: `gps_loop` and the loop of `main`. A step reads or writes
-- `kill_program` at most once. It is the only shared variable that decides where a thread goes; the
-- data that one thread writes and the other sends, field by field and without a lock, is left out.
use transmitter_linux.Common.{ℕ, ◌+◌, ◌≡◌, Bool, true, false, ltb}
use transmitter_linux.Gps.{max_gps_wait_retries, max_gps_read_retries}
use transmitter_linux.Transmit.Main.{Signal, sig_handler}
pub mod Turns
pub mod Stopping

-- Where `gps_loop` is: before its test of `kill_program`, behind it, in `process_gps_data`, or at
-- its end with a status.
pub data GpsPlace : Type 0 where
  testing polling processing : GpsPlace
  exited_with : ℕ → GpsPlace

-- Where `main` is: before the test of its loop, behind the test and before the round, in the round,
-- or behind the loop.
pub data MainPlace : Type 0 where
  in_loop going sending left_loop : MainPlace

pub record Threads : Type 0 where
  pub kill_program : Bool
  pub gps : GpsPlace
  pub retries : ℕ
  pub read_retries : ℕ
  pub main_thread : MainPlace
  pub rounds : ℕ  -- the rounds that `main` has begun

abbrev pub started : Threads
started = record {
  kill_program = false;
  gps = testing;
  retries = 0;
  read_retries = 0;
  main_thread = in_loop;
  rounds = 0;
}

-- A step of one of the threads.
pub data Move (s : Threads) : Threads → Type 0 where
  gps_sees_kill :
      s.gps ≡ testing → s.kill_program ≡ true → Move s (record s { gps = exited_with 0 })
  gps_goes_on : s.gps ≡ testing → s.kill_program ≡ false → Move s (record s { gps = polling })
  gps_not_ready :
      s.gps ≡ polling
      → ltb max_gps_wait_retries s.retries ≡ false
      → Move s (record s { gps = testing; retries = s.retries + 1 })
  gps_waits_no_more :
      s.gps ≡ polling
      → ltb max_gps_wait_retries s.retries ≡ true
      → Move s (record s { gps = exited_with 1; retries = s.retries + 1; kill_program = true })
  gps_read_failed :
      s.gps ≡ polling
      → ltb max_gps_read_retries s.read_retries ≡ false
      → Move s (record s { gps = testing; retries = 0; read_retries = s.read_retries + 1 })
  gps_reads_no_more :
      s.gps ≡ polling
      → ltb max_gps_read_retries s.read_retries ≡ true
      → Move s (record s {
        gps = exited_with 1;
        retries = 0;
        read_retries = s.read_retries + 1;
        kill_program = true;
      })
  gps_read : s.gps ≡ polling → Move s (record s { gps = processing; retries = 0; read_retries = 0 })
  gps_processed : s.gps ≡ processing → Move s (record s { gps = testing })
  main_goes_on :
      s.main_thread ≡ in_loop → s.kill_program ≡ false → Move s (record s { main_thread = going })
  main_begins :
      s.main_thread ≡ going → Move s (record s { main_thread = sending; rounds = s.rounds + 1 })
  main_sent : s.main_thread ≡ sending → Move s (record s { main_thread = in_loop })
  main_leaves :
      s.main_thread ≡ in_loop
      → s.kill_program ≡ true
      → Move s (record s { main_thread = left_loop })

abbrev pub signalled : Signal → Threads → Threads
signalled signo s = record s { kill_program = sig_handler signo s.kill_program }

-- So many moves of the threads, with signals at any point.
pub data Run (s : Threads) : ℕ → Threads → Type 0 where
  here : Run s 0 s
  move : {n : ℕ} {t t' : Threads} → Run s n t → Move t t' → Run s (n + 1) t'
  signal : {n : ℕ} {t : Threads} (signo : Signal) → Run s n t → Run s n (signalled signo t)
