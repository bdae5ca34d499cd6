-- ===== src/Transmit/Threads/Turns.antt =====
-- That the model of `gps_loop` on a list of turns is where its thread is, in every order of the
-- threads' steps.
use mathlib.Core.Bool.{true≢false}
use transmitter_linux.Common.{
  ℕ, ◌+◌, ◌≡◌, refl, sym, ap, ◌∙◌, ◌⊎◌, inl, inr, Bool, true, false, List, [], ◌∷◌, ◌++◌, ltb,
  if◌then◌else◌,
}
use transmitter_linux.Odid.{Odid, UasData}
use transmitter_linux.Gps.{
  Fix, Gpsd, Turn, killed, not_ready, read_failed, report, Loop, LoopEnd, finished, running,
  gps_loop, process_gps_data, loop_start, max_gps_wait_retries, max_gps_read_retries,
}
use transmitter_linux.Transmit.Main.{Signal, sig_handler}
use transmitter_linux.Transmit.Threads.Stopping.{sig_handler-true}
use transmitter_linux.Transmit.Threads.{
  GpsPlace, testing, polling, processing, exited_with, MainPlace, in_loop, going, sending,
  left_loop, Threads, started, Move, gps_sees_kill, gps_goes_on, gps_not_ready, gps_waits_no_more,
  gps_read_failed, gps_reads_no_more, gps_read, gps_processed, main_goes_on, main_begins, main_sent,
  main_leaves, Run, here, move, signal,
}

-- The variables of the loop, with some data.
abbrev pub loop_of : {F : Type 0} → Threads → UasData F → Loop F
loop_of s u = record { retries = s.retries; read_retries = s.read_retries; uas_data = u }

-- Where the model of `gps_loop` is.
abbrev pub place_at : {F : Type 0} → GpsPlace → Loop F → LoopEnd F
place_at (exited_with status) l = finished status l.uas_data
place_at testing l = running l
place_at polling l = running l
place_at processing l = running l

-- Both threads are in their loops.
abbrev pub InLoop : GpsPlace → Type 0
InLoop (exited_with status) = ⊥
InLoop testing = Unit
InLoop polling = Unit
InLoop processing = Unit

abbrev pub InMainLoop : MainPlace → Type 0
InMainLoop left_loop = ⊥
InMainLoop in_loop = Unit
InMainLoop going = Unit
InMainLoop sending = Unit

-- What holds of the two threads until the flag is set.
abbrev pub KilledOrLooping : Threads → Type 0
KilledOrLooping s = (s.kill_program ≡ true) ⊎ (InMainLoop s.main_thread × InLoop s.gps)

abbrev loop_or : {F : Type 0} → Loop F → LoopEnd F → Loop F
loop_or d (finished status u) = d
loop_or d (running l) = l

abbrev is_running : {F : Type 0} → LoopEnd F → Bool
is_running (finished status u) = false
is_running (running l) = true

module _ {F : Type 0} (odid : Odid F) (gpsd : Gpsd) where
  ended : (status : ℕ) (u : UasData F) (l : Loop F) → finished status u ≡ running l → ⊥
  ended status u l e = true≢false (sym (ap is_running e))

  -- A test that ends the loop did not.
  branch :
      (b : Bool) (u : UasData F) (rest rest' goal : LoopEnd F) (l : Loop F)
      → (rest ≡ running l → rest' ≡ goal)
      → (if b then finished 1 u else rest) ≡ running l
      → (if b then finished 1 u else rest') ≡ goal
  branch true u rest rest' goal l k e = absurd (ended 1 u l e)
  branch false u rest rest' goal l k e = k e

  -- A loop that is still running goes on from where it is.
  gps_loop-append :
      (turns more : List (Turn F)) (l s : Loop F)
      → gps_loop odid gpsd s turns ≡ running l
      → gps_loop odid gpsd s (turns ++ more) ≡ gps_loop odid gpsd l more
  unfolding gps_loop
  gps_loop-append [] more l s e = ap (λ k. gps_loop odid gpsd k more) (ap (loop_or s) e)
  gps_loop-append (killed ∷ turns) more l s e = absurd (ended 0 s.uas_data l e)
  gps_loop-append (not_ready ∷ turns) more l s e =
      branch (ltb max_gps_wait_retries s.retries) s.uas_data _ _ (gps_loop odid gpsd l more) l
        (gps_loop-append turns more l (record s { retries = s.retries + 1 })) e
  gps_loop-append (read_failed ∷ turns) more l s e =
      branch (ltb max_gps_read_retries s.read_retries) s.uas_data _ _ (gps_loop odid gpsd l more) l
        (gps_loop-append turns more l (record s { retries = 0; read_retries = s.read_retries + 1 }))
        e
  gps_loop-append (report fix ∷ turns) more l s e =
      gps_loop-append turns more l
        (record {
          retries = 0;
          read_retries = 0;
          uas_data = process_gps_data odid gpsd fix s.uas_data;
        })
        e

  -- That a list of turns explains a state.
  pub record Explained (u : UasData F) (s : Threads) : Type 0 where
    pub turns : List (Turn F)
    pub uas_data : UasData F
    pub loop : gps_loop odid gpsd (loop_start u) turns ≡ place_at s.gps (loop_of s uas_data)
    pub in_loops : KilledOrLooping s

  -- One more turn of a thread that is in its loop.
  one_turn :
      (u d : UasData F) (s s' : Threads) (t : Turn F) (x : Explained u s)
      → ((l : Loop F) → place_at s.gps l ≡ running l)
      → gps_loop odid gpsd (loop_of s x.uas_data) (t ∷ []) ≡ place_at s'.gps (loop_of s' d)
      → KilledOrLooping s'
      → Explained u s'
  one_turn u d s s' t x at turned_to loops = record {
    turns = x.turns ++ (t ∷ []);
    uas_data = d;
    loop =
        gps_loop-append x.turns (t ∷ []) (loop_of s x.uas_data) (loop_start u)
          (x.loop ∙ at (loop_of s x.uas_data))
        ∙ turned_to;
    in_loops = loops;
  }

  -- The GPS thread moves within its loop.
  stays :
      (s : Threads) (g : GpsPlace)
      → InLoop g
      → KilledOrLooping s
      → (s.kill_program ≡ true) ⊎ (InMainLoop s.main_thread × InLoop g)
  stays s g inside (inl p) = inl p
  stays s g inside (inr (q, r)) = inr (q, inside)

  -- The main thread does.
  main_stays :
      (s : Threads) (p : MainPlace)
      → InMainLoop p
      → KilledOrLooping s
      → (s.kill_program ≡ true) ⊎ (InMainLoop p × InLoop s.gps)
  main_stays s p inside (inl k) = inl k
  main_stays s p inside (inr (q, r)) = inr (inside, r)

  module _ (u : UasData F) (fix : Fix F) where
    Move-Explained : (s s' : Threads) → Explained u s → Move s s' → Explained u s'
    unfolding gps_loop
    Move-Explained s s' x (gps_sees_kill at set) =
        one_turn u x.uas_data s s' killed x (λ l. ap (λ g. place_at g l) at) refl (inl set)
    Move-Explained s s' x (gps_goes_on at clear) = record {
      turns = x.turns;
      uas_data = x.uas_data;
      loop = x.loop ∙ ap (λ g. place_at g (loop_of s x.uas_data)) at;
      in_loops = stays s polling tt x.in_loops;
    }
    Move-Explained s s' x (gps_not_ready at low) =
        one_turn u x.uas_data s s' not_ready x (λ l. ap (λ g. place_at g l) at) (rw low refl)
          (stays s testing tt x.in_loops)
    Move-Explained s s' x (gps_waits_no_more at high) =
        one_turn u x.uas_data s s' not_ready x (λ l. ap (λ g. place_at g l) at) (rw high refl)
          (inl refl)
    Move-Explained s s' x (gps_read_failed at low) =
        one_turn u x.uas_data s s' read_failed x (λ l. ap (λ g. place_at g l) at) (rw low refl)
          (stays s testing tt x.in_loops)
    Move-Explained s s' x (gps_reads_no_more at high) =
        one_turn u x.uas_data s s' read_failed x (λ l. ap (λ g. place_at g l) at) (rw high refl)
          (inl refl)
    Move-Explained s s' x (gps_read at) =
        one_turn u (process_gps_data odid gpsd fix x.uas_data) s s' (report fix) x
          (λ l. ap (λ g. place_at g l) at) refl (stays s processing tt x.in_loops)
    Move-Explained s s' x (gps_processed at) = record {
      turns = x.turns;
      uas_data = x.uas_data;
      loop = x.loop ∙ ap (λ g. place_at g (loop_of s x.uas_data)) at;
      in_loops = stays s testing tt x.in_loops;
    }
    Move-Explained s s' x (main_goes_on at clear) = record {
      turns = x.turns;
      uas_data = x.uas_data;
      loop = x.loop;
      in_loops = main_stays s going tt x.in_loops;
    }
    Move-Explained s s' x (main_begins at) = record {
      turns = x.turns;
      uas_data = x.uas_data;
      loop = x.loop;
      in_loops = main_stays s sending tt x.in_loops;
    }
    Move-Explained s s' x (main_sent at) = record {
      turns = x.turns;
      uas_data = x.uas_data;
      loop = x.loop;
      in_loops = main_stays s in_loop tt x.in_loops;
    }
    Move-Explained s s' x (main_leaves at set) = record {
      turns = x.turns;
      uas_data = x.uas_data;
      loop = x.loop;
      in_loops = inl set;
    }

    signal_both :
        (signo : Signal) (s : Threads)
        → KilledOrLooping s
        → (sig_handler signo s.kill_program ≡ true) ⊎ (InMainLoop s.main_thread × InLoop s.gps)
    signal_both signo s (inl p) = inl (ap (sig_handler signo) p ∙ sig_handler-true signo)
    signal_both signo s (inr q) = inr q

    -- For every order of the threads' steps and of signals from the start on: there is a list of
    -- turns for which `gps_loop` is just where its thread is, in its loop with the same counts, or
    -- at its end with the same status; and unless `kill_program` is set, both threads are still in
    -- their loops.
    pub Run-Explained : (n : ℕ) (s : Threads) → Run started n s → Explained u s
    unfolding gps_loop
    Run-Explained n s here = record {
      turns = [];
      uas_data = u;
      loop = refl;
      in_loops = inr (tt, tt);
    }
    Run-Explained n s (move run m) = Move-Explained _ s (Run-Explained _ _ run) m
    Run-Explained n s (signal {t = t} signo run) =
        let x = Run-Explained n t run in
        record {
          turns = x.turns;
          uas_data = x.uas_data;
          loop = x.loop;
          in_loops = signal_both signo t x.in_loops;
        }
