-- ===== src/Hostapd/Control.antt =====
-- The control connection that the two threads share: requests, the semaphore, the ping of the
-- event loop's thread, and the points at which that thread may run.
use transmitter_linux.Common.{
  ℕ, ◌+◌, ◌-◌, Bool, true, false, List, [], ◌∷◌, ◌++◌, ltb, if◌then◌else◌, not, ◌&&◌, codes,
}
use transmitter_linux.Machine.{
  World, Effect, Outcome, done, blocked, M, ◌>>=◌, ◌>>◌, pure, when, say, Env, Reply, replied,
  timed_out, request_failed, Tick, ctrl_request, printed, not_connected, command_timed_out,
  command_failed, reply_text, connection_lost, reconnected,
}

-- `sem_post`; the limit SEM_VALUE_MAX is left out.
unfoldable pub sem_post : World → World
sem_post w = record w { semaphore = w.semaphore + 1 }

abbrev log : World → List Effect → World
log w effects = record w { out = w.out ++ effects }

-- The request of `hostapd_cli_ping`, with `print` 0, and the close if it fails.
ping_request : Reply → World → World
unfolding sem_post
ping_request (replied text) w = sem_post (log w (ctrl_request (codes "PING") ∷ []))
ping_request timed_out w =
    record (sem_post (
      log w
        (ctrl_request (codes "PING") ∷ printed command_timed_out ∷ printed connection_lost ∷ []))) {
          connected = false;
        }
ping_request request_failed w =
    record (sem_post (
      log w
        (ctrl_request (codes "PING") ∷ printed command_failed ∷ printed connection_lost ∷ []))) {
          connected = false;
        }

-- `hostapd_cli_ping`, run by the event loop until `eloop_terminate`. The list of stations that a
-- reconnection or a pending message refreshes is left out: only the prompt's completion reads it.
unfoldable pub hostapd_cli_ping : Tick → World → World
unfolding ping_request
hostapd_cli_ping t w =
    if w.cli_quit
    then w
    else (let w' = (if w.connected then ping_request t.reply w else w) in
        if not w'.connected && t.reopens
        then record (log w' (printed reconnected ∷ [])) { connected = true }
        else w')

unfoldable pub run_ticks : List Tick → World → World
run_ticks [] w = w
run_ticks (t ∷ ts) w = run_ticks ts (hostapd_cli_ping t w)

-- A point at which the other thread may run before the main thread goes on.
unfoldable pub switch_from : List (List Tick) → World → World
switch_from [] w = record w { schedule = [] }
switch_from (ts ∷ rest) w = run_ticks ts (record w { schedule = rest })

unfoldable pub switch_thread : M (Unit {0})
unfolding switch_from
switch_thread w = done tt (switch_from w.schedule w)

-- `sem_wait`: while the count is 0 only the other thread can go on.
unfoldable pub acquire : List (List Tick) → World → Outcome (Unit {0})
acquire [] w =
    if ltb 0 w.semaphore
    then done tt (record w { semaphore = w.semaphore - 1; schedule = [] })
    else blocked (record w { schedule = [] })
acquire (ts ∷ rest) w =
    let later = acquire rest (run_ticks ts w) in
    if ltb 0 w.semaphore
    then done tt (record w { semaphore = w.semaphore - 1; schedule = ts ∷ rest })
    else later

unfoldable pub sem_wait : M (Unit {0})
unfolding acquire
sem_wait w = acquire w.schedule w

module _ (env : Env) where
  -- What follows the request in `_wpa_ctrl_command`.
  unfoldable pub after_request : Bool → Reply → M Bool
  after_request print (replied text) = do when print (say (reply_text text)); pure true
  after_request print timed_out = do say command_timed_out; pure false
  after_request print request_failed = do say command_failed; pure false

  -- `_wpa_ctrl_command`; the result says whether it returns 0. A command that is dropped does
  -- not post the semaphore.
  unfoldable pub wpa_ctrl_command : Bool → List ℕ → M Bool
  unfolding sem_post after_request
  wpa_ctrl_command print cmd w =
      if w.connected
      then after_request print (env.wpa_ctrl_request w.out cmd)
          (sem_post (log w (ctrl_request cmd ∷ [])))
      else (say not_connected >>= λ _. pure false) w
