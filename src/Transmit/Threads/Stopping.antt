-- ===== src/Transmit/Threads/Stopping.antt =====
-- How the threads end once `kill_program` is set.
use mathlib.Core.Bool.{true≢false}
use transmitter_linux.Common.{
  ℕ, ◌+◌, ◌≤◌, ◌≡◌, refl, sym, ap, ◌∙◌, ◌⊎◌, inl, inr, true, arith, ltb, Bool-cases,
}
use transmitter_linux.Gps.{max_gps_wait_retries}
use transmitter_linux.Transmit.Main.{
  Signal, sigint, sigstop, sigkill, sigterm, other_signal, sig_handler,
}
use transmitter_linux.Transmit.Threads.{
  GpsPlace, testing, polling, processing, exited_with, MainPlace, in_loop, going, sending,
  left_loop, Threads, Move, gps_sees_kill, gps_goes_on, gps_not_ready, gps_waits_no_more,
  gps_read_failed, gps_reads_no_more, gps_read, gps_processed, main_goes_on, main_begins, main_sent,
  main_leaves, Run, here, move, signal,
}

-- The moves that each thread has left when `kill_program` is set.
abbrev pub gps_left : GpsPlace → ℕ
gps_left testing = 1
gps_left polling = 3
gps_left processing = 2
gps_left (exited_with status) = 0

abbrev pub main_left : MainPlace → ℕ
main_left in_loop = 1
main_left going = 3
main_left sending = 2
main_left left_loop = 0

abbrev pub moves_left : Threads → ℕ
moves_left s = gps_left s.gps + main_left s.main_thread

-- The round that `main` has still to begin where it has seen `kill_program` clear.
abbrev pub rounds_left : MainPlace → ℕ
rounds_left going = 1
rounds_left in_loop = 0
rounds_left sending = 0
rounds_left left_loop = 0

pub sig_handler-true : (signo : Signal) → sig_handler signo true ≡ true
unfolding sig_handler
sig_handler-true sigint = refl
sig_handler-true sigstop = refl
sig_handler-true sigkill = refl
sig_handler-true sigterm = refl
sig_handler-true other_signal = refl

-- What a killed program keeps: the flag, the rounds, and moves that add up.
record Killed (s : Threads) (n : ℕ) (t : Threads) : Type 0 where
  killed : t.kill_program ≡ true
  same : t.rounds + rounds_left t.main_thread ≡ s.rounds + rounds_left s.main_thread
  count : n + moves_left t ≤ moves_left s

gps_left-bound : (p : GpsPlace) → gps_left p ≤ 3
gps_left-bound testing = omega arith
gps_left-bound polling = omega arith
gps_left-bound processing = omega arith
gps_left-bound (exited_with status) = omega arith

main_left-bound : (p : MainPlace) → main_left p ≤ 3
main_left-bound in_loop = omega arith
main_left-bound going = omega arith
main_left-bound sending = omega arith
main_left-bound left_loop = omega arith

moves_left-bound : (s : Threads) → moves_left s ≤ 6
moves_left-bound s = omega (arith, gps_left-bound s.gps, main_left-bound s.main_thread)

Move-Killed : (s t t' : Threads) (n : ℕ) → Killed s n t → Move t t' → Killed s (n + 1) t'
Move-Killed s t t' n k (gps_sees_kill at set) = record {
  killed = k.killed;
  same = k.same;
  count = omega (arith, k.count, ap gps_left at);
}
Move-Killed s t t' n k (gps_not_ready at low) = record {
  killed = k.killed;
  same = k.same;
  count = omega (arith, k.count, ap gps_left at);
}
Move-Killed s t t' n k (gps_waits_no_more at high) = record {
  killed = refl;
  same = k.same;
  count = omega (arith, k.count, ap gps_left at);
}
Move-Killed s t t' n k (gps_read_failed at low) = record {
  killed = k.killed;
  same = k.same;
  count = omega (arith, k.count, ap gps_left at);
}
Move-Killed s t t' n k (gps_reads_no_more at high) = record {
  killed = refl;
  same = k.same;
  count = omega (arith, k.count, ap gps_left at);
}
Move-Killed s t t' n k (gps_read at) = record {
  killed = k.killed;
  same = k.same;
  count = omega (arith, k.count, ap gps_left at);
}
Move-Killed s t t' n k (gps_processed at) = record {
  killed = k.killed;
  same = k.same;
  count = omega (arith, k.count, ap gps_left at);
}
Move-Killed s t t' n k (gps_goes_on at clear) = absurd (true≢false (sym k.killed ∙ clear))
Move-Killed s t t' n k (main_goes_on at clear) = absurd (true≢false (sym k.killed ∙ clear))
Move-Killed s t t' n k (main_begins at) = record {
  killed = k.killed;
  same = omega (arith, k.same, ap rounds_left at);
  count = omega (arith, k.count, ap main_left at);
}
Move-Killed s t t' n k (main_sent at) = record {
  killed = k.killed;
  same = omega (arith, k.same, ap rounds_left at);
  count = omega (arith, k.count, ap main_left at);
}
Move-Killed s t t' n k (main_leaves at set) = record {
  killed = k.killed;
  same = omega (arith, k.same, ap rounds_left at);
  count = omega (arith, k.count, ap main_left at);
}

Run-Killed : (s t : Threads) (n : ℕ) → s.kill_program ≡ true → Run s n t → Killed s n t
Run-Killed s t n set here = record { killed = set; same = refl; count = omega arith }
Run-Killed s t n set (move run m) = Move-Killed s _ t _ (Run-Killed s _ _ set run) m
Run-Killed s t n set (signal {t = t0} signo run) =
    let k = Run-Killed s t0 n set run in
    record {
      killed = ap (sig_handler signo) k.killed ∙ sig_handler-true signo;
      same = k.same;
      count = k.count;
    }

gps_moves :
    (t : Threads) (g : GpsPlace)
    → t.gps ≡ g
    → t.kill_program ≡ true
    → ((status : ℕ) × (t.gps ≡ exited_with status)) ⊎ ((t' : Threads) × Move t t')
gps_moves t testing at set = inr (_, gps_sees_kill at set)
gps_moves t polling at set = elim (Bool-cases (ltb max_gps_wait_retries t.retries)) [
  | inl e ↦ inr (_, gps_waits_no_more at e)
  | inr e ↦ inr (_, gps_not_ready at e)
]
gps_moves t processing at set = inr (_, gps_processed at)
gps_moves t (exited_with status) at set = inl (status, at)

-- The end of both threads, a round that `main` is in, or a move.
abbrev pub EndsOrMoves : Threads → Type 0
EndsOrMoves t =
    (((status : ℕ) × (t.gps ≡ exited_with status)) × (t.main_thread ≡ left_loop))
    ⊎ ((t.main_thread ≡ sending) ⊎ ((t' : Threads) × Move t t'))

main_moves :
    (t : Threads) (p : MainPlace) → t.main_thread ≡ p → t.kill_program ≡ true → EndsOrMoves t
main_moves t in_loop at set = inr (inr (_, main_leaves at set))
main_moves t going at set = inr (inr (_, main_begins at))
main_moves t sending at set = inr (inl at)
main_moves t left_loop at set = elim (gps_moves t t.gps refl set) [
  | inl ended ↦ inl (ended, at)
  | inr moved ↦ inr (inr moved)
]

-- Once `kill_program` is set, whatever the order of the threads' steps and of further signals: it
-- stays set; `main` begins no further round, but for one if it had seen the flag clear before and
-- had not begun the round then; the two threads take at most six more steps together, and the
-- end of a round and what follows it are among them; and the threads have both ended, or `main` is
-- in a round, which may not return, or one of the threads can take a step.
pub Run-Ends :
    (s t : Threads) (n : ℕ)
    → s.kill_program ≡ true
    → Run s n t
    → (t.kill_program ≡ true)
      × (t.rounds + rounds_left t.main_thread ≡ s.rounds + rounds_left s.main_thread)
      × (n ≤ 6)
      × EndsOrMoves t
Run-Ends s t n set run =
    let k = Run-Killed s t n set run in
    (
      k.killed,
      k.same,
      omega (arith, k.count, moves_left-bound s),
      main_moves t t.main_thread refl k.killed,
    )
