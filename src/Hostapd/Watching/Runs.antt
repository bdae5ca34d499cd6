-- ===== src/Hostapd/Watching/Runs.antt =====
-- Which programs `hostapd_cli_action` runs, and when its loop ends.
use mathlib.Core.Bool.{true≢false}
use mathlib.Core.List.{append-nil, map-append}
use mathlib.Core.Path.{subst}
use transmitter_linux.Common.{
  ℕ, ◌+◌, ◌-◌, ◌≢◌, not, ◌≡◌, refl, sym, ap, ◌∙◌, Bool, true, false, ◌&&◌, ◌||◌, Option, none, some,
  List, [], ◌∷◌, ◌++◌, if◌then◌else◌, codes, map, length, length-append, take_all, arith,
}
use transmitter_linux.Hostapd.Events.{
  EventNames, Action, hostapd_cli_exec, hostapd_cli_action_process, action_text, recv_loop,
  hostapd_cli_recv_pending,
}
use transmitter_linux.Hostapd.Watching.{
  ActionTurn, quit_set, select_failed, no_pong, watching, Watched, select_breaks, is_pong,
  process_all, before, ends_with, no_pong_line, hostapd_cli_action,
}

-- The messages that are read before a receive fails.
abbrev pub delivered : List (Option (List ℕ)) → List (List ℕ)
delivered [] = []
delivered (none ∷ rest) = []
delivered (some m ∷ rest) = m ∷ delivered rest

-- The turn leaves the loop running: nothing asked it to quit, `select` did not fail, and either
-- there was something to read or hostapd answered the ping.
abbrev pub goes : ActionTurn → Bool
goes t = not t.quit && (not (select_breaks t.select) && (t.readable || is_pong t.reply))

-- The messages of a turn, and those of the turn that ends the loop.
abbrev pub messages : ActionTurn → List (List ℕ)
messages t = if t.readable then delivered t.pending else t.unasked

abbrev pub last_messages : ActionTurn → List (List ℕ)
last_messages t = if t.quit || select_breaks t.select then [] else t.unasked

abbrev pub all_messages : List ActionTurn → ActionTurn → List (List ℕ)
all_messages [] last = last_messages last
all_messages (t ∷ ts) last = messages t ++ all_messages ts last

abbrev pub AllGo : List ActionTurn → Type 0
AllGo [] = Unit
AllGo (t ∷ ts) = (goes t ≡ true) × AllGo ts

-- The program and its argument: the interface's name, a blank, and the event's text.
abbrev pub run_for : Action → List ℕ → List ℕ × List ℕ
run_for a m = (a.action_file, a.ctrl_ifname ++ (codes " " ++ action_text m))

-- Which branch of a turn is taken.
going_branch :
    (quit breaks readable pong : Bool) (v w x y z : Watched)
    → (not quit && (not breaks && (readable || pong))) ≡ true
    → (if quit then v else if breaks then w else if readable then x else if pong then y else z)
      ≡ (if readable then x else y)
going_branch true breaks readable pong v w x y z g = absurd (true≢false (sym g))
going_branch false true readable pong v w x y z g = absurd (true≢false (sym g))
going_branch false false true pong v w x y z g = refl
going_branch false false false true v w x y z g = refl
going_branch false false false false v w x y z g = absurd (true≢false (sym g))

stopping_branch :
    (quit breaks readable pong : Bool) (v w x y z : Watched)
    → (not quit && (not breaks && (readable || pong))) ≡ false
    → (if quit then v else if breaks then w else if readable then x else if pong then y else z)
      ≡ (if quit then v else if breaks then w else z)
stopping_branch true breaks readable pong v w x y z g = refl
stopping_branch false true readable pong v w x y z g = refl
stopping_branch false false true pong v w x y z g = absurd (true≢false g)
stopping_branch false false false true v w x y z g = absurd (true≢false g)
stopping_branch false false false false v w x y z g = refl

module _ (names : EventNames) (a : Action) (memory : (size : ℕ) → a.allocates size ≡ true) where
  -- The buffer has just the room for the argument.
  process_one : (m : List ℕ) → hostapd_cli_action_process a m ≡ run_for a m ∷ []
  unfolding hostapd_cli_action_process hostapd_cli_exec
  process_one m =
      let text = a.ctrl_ifname ++ (codes " " ++ action_text m) in
      let size = length a.ctrl_ifname + length (action_text m) + 2 in
      rw (memory size) (
        ap (λ t. (a.action_file, t) ∷ [])
          (take_all (size - 1) text (
            omega (
              arith,
              length-append a.ctrl_ifname (codes " " ++ action_text m),
              length-append (codes " ") (action_text m),
            ))))

  process_all-map : (ms : List (List ℕ)) → process_all a ms ≡ map (run_for a) ms
  process_all-map [] = refl
  process_all-map (m ∷ ms) =
      ap (λ l. l ++ process_all a ms) (process_one m)
      ∙ ap (λ l. run_for a m ∷ l) (process_all-map ms)

  recv_loop-runs :
      (in_read first : Bool) (pending : List (Option (List ℕ)))
      → (recv_loop names in_read (some a) first pending).runs ≡ process_all a (delivered pending)
  unfolding recv_loop
  recv_loop-runs in_read first [] = refl
  recv_loop-runs in_read first (none ∷ rest) = refl
  recv_loop-runs in_read first (some m ∷ rest) =
      ap (λ l. hostapd_cli_action_process a m ++ l) (recv_loop-runs in_read first rest)

  -- What a turn that goes on adds.
  Adds : List (List ℕ) → Watched → Watched → Type 0
  Adds ms rest w = (w.runs ≡ map (run_for a) ms ++ rest.runs) × (w.ended ≡ rest.ended)

  -- What the turn that ends the loop adds.
  Ended : List (List ℕ) → Watched → Type 0
  Ended ms w = (w.runs ≡ map (run_for a) ms) × (w.ended ≢ watching)

  branch-Adds :
      (readable : Bool) (pending : List (Option (List ℕ))) (unasked : List (List ℕ))
      (rest : Watched)
      → let found = recv_loop names false (some a) true pending in
        Adds (if readable then delivered pending else unasked) rest (
          if readable
          then before found.runs found.lines rest
          else before (process_all a unasked) [] rest)
  unfolding Adds
  branch-Adds true pending unasked rest = (
    ap (λ l. l ++ rest.runs)
        (recv_loop-runs false true pending ∙ process_all-map (delivered pending)),
    refl,
  )
  branch-Adds false pending unasked rest =
      (ap (λ l. l ++ rest.runs) (process_all-map unasked), refl)

  going :
      (t : ActionTurn) (ts : List ActionTurn)
      → goes t ≡ true
      → Adds
          (messages t)
          (hostapd_cli_action names a true ts)
          (hostapd_cli_action names a true (t ∷ ts))
  unfolding hostapd_cli_action hostapd_cli_recv_pending
  going t ts g =
      subst (Adds (messages t) (hostapd_cli_action names a true ts))
        (sym
          (going_branch t.quit (select_breaks t.select) t.readable (is_pong t.reply) _ _ _ _ _ g))
        (branch-Adds t.readable t.pending t.unasked (hostapd_cli_action names a true ts))

  branch-Ended :
      (quit breaks : Bool) (unasked : List (List ℕ))
      → Ended (if quit || breaks then [] else unasked) (
          if quit
          then ends_with quit_set
          else if breaks
          then ends_with select_failed
          else before (process_all a unasked) (no_pong_line ∷ []) (ends_with no_pong))
  unfolding Ended
  branch-Ended true breaks unasked = (refl, λ e. ground (arith, e))
  branch-Ended false true unasked = (refl, λ e. ground (arith, e))
  branch-Ended false false unasked =
      (append-nil (process_all a unasked) ∙ process_all-map unasked, λ e. ground (arith, e))

  stopping :
      (t : ActionTurn) (ts : List ActionTurn)
      → goes t ≡ false
      → Ended (last_messages t) (hostapd_cli_action names a true (t ∷ ts))
  unfolding hostapd_cli_action
  stopping t ts g =
      subst (Ended (last_messages t))
        (sym (
          stopping_branch t.quit (select_breaks t.select) t.readable (is_pong t.reply) _ _ _ _ _ g))
        (branch-Ended t.quit (select_breaks t.select) t.unasked)

  -- With a connection and memory for the arguments, and whatever events hostapd sends: as long as
  -- nothing asks the loop to quit, `select` works and hostapd answers the pings, every message
  -- that is read runs the action's program once, in the order of the messages, with the name of
  -- the interface and the whole text of the event; the first turn for which this does not hold
  -- ends the loop, after the messages that came with its unanswered ping.
  pub hostapd_cli_action_lem :
      (ts rest : List ActionTurn) (last : ActionTurn)
      → AllGo ts
      → goes last ≡ false
      → let w = hostapd_cli_action names a true (ts ++ (last ∷ rest)) in
        (w.runs ≡ map (run_for a) (all_messages ts last)) × (w.ended ≢ watching)
  unfolding Adds Ended
  hostapd_cli_action_lem [] rest last go stop = stopping last rest stop
  hostapd_cli_action_lem (t ∷ ts) rest last (g, go) stop =
      let added = going t (ts ++ (last ∷ rest)) g in
      let later = hostapd_cli_action_lem ts rest last go stop in
      (
        added.0
            ∙ ap (λ l. map (run_for a) (messages t) ++ l) later.0
            ∙ sym (map-append (run_for a) (messages t) (all_messages ts last)),
        λ e. later.1 (sym added.1 ∙ e),
      )
