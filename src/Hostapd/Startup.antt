-- ===== src/Hostapd/Startup.antt =====
-- The thread of `ap_interface_init` up to its first `sem_post`.
use transmitter_linux.Common.{ℕ, Bool, true, false, List, [], ◌∷◌, if◌then◌else◌}
use transmitter_linux.Machine.{
  done, blocked, M, ◌>>=◌, ◌>>◌, Env, not_attached, skip, when, say, emit, slept_us,
  could_not_connect, connection_established,
}
use transmitter_linux.Hostapd.Control.{sem_post}
use transmitter_linux.Hostapd.Commands.{update_stations}

-- What `hostapd_cli_reconnect` comes to: no connection, or one that `wpa_ctrl_attach` attaches or
-- not. The variables that it sets are in Connection.
pub data Attempt : Type 0 where
  no_connection : Attempt
  connects : Bool → Attempt

-- What the thread meets: whether `os_program_init` and `eloop_init` fail, each attempt to connect,
-- and the turns of the loop over hostapd's stations after which that is one that does not end.
pub record Startup : Type 0 where
  pub program_init_fails : Bool
  pub eloop_init_fails : Bool
  pub attempts : List Attempt
  pub fuel : ℕ

set_connected : M (Unit {0})
set_connected w = done tt (record w { connected = true })

post : M (Unit {0})
unfolding sem_post
post w = done tt (sem_post w)

module _ (env : Env) where
  -- What `hostapd_cli_reconnect` does on a new connection; `interactive` is 1.
  unfoldable pub attach_connection : ℕ → Bool → M (Unit {0})
  unfolding update_stations
  attach_connection fuel true = do stations ← update_stations env fuel; skip
  attach_connection fuel false = say not_attached

  -- The loop, with `warning_displayed`; with no attempt left it goes on for ever.
  unfoldable pub connect_loop : ℕ → Bool → List Attempt → M (Unit {0})
  unfolding set_connected attach_connection
  connect_loop fuel warned [] w = blocked w
  connect_loop fuel warned (connects attaches ∷ rest) w =
      (do set_connected; attach_connection fuel attaches; when warned (say connection_established))
        w
  connect_loop fuel false (no_connection ∷ rest) w =
      (do say could_not_connect; emit (slept_us 1000000); connect_loop fuel true rest) w
  connect_loop fuel true (no_connection ∷ rest) w =
      (do emit (slept_us 1000000); connect_loop fuel true rest) w

  -- A thread that exits early posts nothing.
  unfoldable pub ap_interface_init : Startup → M (Unit {0})
  unfolding connect_loop post
  ap_interface_init s =
      if s.program_init_fails
      then skip
      else if s.eloop_init_fails
      then skip
      else (do connect_loop s.fuel false s.attempts; post)
