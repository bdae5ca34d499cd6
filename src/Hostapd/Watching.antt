-- ===== src/Hostapd/Watching.antt =====
-- `hostapd_cli_action`: the loop that runs a program for each event of hostapd, turn by turn.
use mathlib.Core.Bool.{true≢false}
use mathlib.Core.List.{append-nil, map-append}
use mathlib.Core.Path.{subst}
use transmitter_linux.Common.{
  ℕ, ◌+◌, ◌-◌, ◌≤◌, ◌≢◌, not, ◌≡◌, refl, sym, ap, ◌∙◌, Bool, true, false, ◌&&◌, ◌||◌, Option, none,
  some, List, [], ◌∷◌, ◌++◌, if◌then◌else◌, codes, map, length, take, leb, length-append, take_all,
  arith,
}
use transmitter_linux.Machine.{Errno, eintr, Reply, replied, timed_out, request_failed}
use transmitter_linux.Hostapd.Commands.{same_text}
use transmitter_linux.Hostapd.Events.{
  EventNames, Action, hostapd_cli_exec, hostapd_cli_action_process, action_text, recv_loop,
  hostapd_cli_recv_pending,
}
pub mod Runs

-- What one turn of the loop meets: `hostapd_cli_quit`, the error of `select`, whether the socket
-- is in the set after it, what the receives return, and for the ping the messages that come while
-- its reply is awaited, and the reply.
pub record ActionTurn : Type 0 where
  pub quit : Bool
  pub select : Option Errno
  pub readable : Bool
  pub pending : List (Option (List ℕ))
  pub unasked : List (List ℕ)
  pub reply : Reply

-- Why the loop ends; `watching` if it goes on after the turns.
pub data WatchEnd : Type 0 where
  quit_set select_failed no_pong watching : WatchEnd

pub record Watched : Type 0 where
  pub runs : List (List ℕ × List ℕ)
  pub lines : List (List ℕ)
  pub ended : WatchEnd

-- `res < 0 && errno != EINTR`
abbrev pub select_breaks : Option Errno → Bool
select_breaks none = false
select_breaks (some eintr) = false
select_breaks (some e) = true

-- The reply begins with PONG.
abbrev pub is_pong : Reply → Bool
is_pong (replied text) = leb 4 (length text) && same_text (take 4 text) (codes "PONG")
is_pong timed_out = false
is_pong request_failed = false

abbrev pub process_all : Action → List (List ℕ) → List (List ℕ × List ℕ)
process_all a [] = []
process_all a (m ∷ ms) = hostapd_cli_action_process a m ++ process_all a ms

-- A turn's programs and lines, before the turns behind it.
abbrev pub before : List (List ℕ × List ℕ) → List (List ℕ) → Watched → Watched
before runs lines rest = record {
  runs = runs ++ rest.runs;
  lines = lines ++ rest.lines;
  ended = rest.ended;
}

abbrev pub ends_with : WatchEnd → Watched
ends_with e = record { runs = []; lines = []; ended = e }

abbrev pub no_pong_line : List ℕ
no_pong_line = codes "hostapd did not reply to PING command - exiting\n"

module _ (names : EventNames) (a : Action) (ctrl_conn : Bool) where
  unfoldable pub hostapd_cli_action : List ActionTurn → Watched
  unfolding hostapd_cli_recv_pending
  hostapd_cli_action [] = ends_with watching
  hostapd_cli_action (t ∷ ts) =
      let rest = hostapd_cli_action ts in
      let received = hostapd_cli_recv_pending names ctrl_conn false (some a) t.pending in
      if t.quit
      then ends_with quit_set
      else if select_breaks t.select
      then ends_with select_failed
      else if t.readable
      then before received.runs received.lines rest
      else if is_pong t.reply
      then before (process_all a t.unasked) [] rest
      else before (process_all a t.unasked) (no_pong_line ∷ []) (ends_with no_pong)
