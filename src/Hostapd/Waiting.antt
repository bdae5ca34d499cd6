-- ===== src/Hostapd/Waiting.antt =====
-- The semaphore between the two threads.
use transmitter_linux.Common.{ℕ, ◌+◌, ◌≡◌, refl, ◌∙◌, ap, true, false, List, [], ◌∷◌, length, arith}
use transmitter_linux.Machine.{World, blocked, Tick, replied}
use transmitter_linux.Hostapd.Control.{hostapd_cli_ping, run_ticks, acquire}

-- No run of the other thread finds hostapd again.
abbrev pub NeverReopens : List Tick → Type 0
NeverReopens [] = Unit
NeverReopens (t ∷ ts) = (t.reopens ≡ false) × NeverReopens ts

abbrev pub NeverReopensAll : List (List Tick) → Type 0
NeverReopensAll [] = Unit
NeverReopensAll (ts ∷ rest) = NeverReopens ts × NeverReopensAll rest

ping_idle :
    (t : Tick) (w : World) → w.connected ≡ false → t.reopens ≡ false → hostapd_cli_ping t w ≡ w
unfolding hostapd_cli_ping
ping_idle t w off never = ground arith

pub run_ticks_idle :
    (ts : List Tick) (w : World) → w.connected ≡ false → NeverReopens ts → run_ticks ts w ≡ w
unfolding run_ticks
run_ticks_idle [] w off never = refl
run_ticks_idle (t ∷ ts) w off never =
    ap (run_ticks ts) (ping_idle t w off never.0) ∙ run_ticks_idle ts w off never.1

pub acquire_idle :
    (schedule : List (List Tick)) (w : World)
    → w.connected ≡ false
    → w.semaphore ≡ 0
    → NeverReopensAll schedule
    → acquire schedule w ≡ blocked (record w { schedule = [] })
unfolding acquire
acquire_idle [] w off empty never = ground arith
acquire_idle (ts ∷ rest) w off empty never =
    ground (arith, run_ticks_idle ts w off never.0, acquire_idle rest w off empty never.1)

-- Every ping is answered, while the loop has not been told to quit.
abbrev pub Answered : List Tick → Type 0
Answered [] = Unit
Answered (t ∷ ts) = ((text : List ℕ) × (t.reply ≡ replied text)) × Answered ts

ping_posts :
    (t : Tick) (w : World) (text : List ℕ)
    → w.connected ≡ true
    → w.cli_quit ≡ false
    → t.reply ≡ replied text
    → let w' = hostapd_cli_ping t w in
      (w'.semaphore ≡ w.semaphore + 1) × (w'.connected ≡ true) × (w'.cli_quit ≡ false)
unfolding hostapd_cli_ping
ping_posts t w text on going r = ground arith

-- While the connection stands and the loop has not been told to quit, pings that are all answered
-- add their number to the semaphore that the main thread takes for the end of its own command.
pub run_ticks-semaphore :
    (ts : List Tick) (w : World)
    → w.connected ≡ true
    → w.cli_quit ≡ false
    → Answered ts
    → (run_ticks ts w).semaphore ≡ w.semaphore + length ts
unfolding run_ticks
run_ticks-semaphore [] w on going all = omega arith
run_ticks-semaphore (t ∷ ts) w on going all =
    let (posts, on', going') = ping_posts t w all.0.0 on going all.0.1 in
    omega (arith, run_ticks-semaphore ts (hostapd_cli_ping t w) on' going' all.1, posts)
