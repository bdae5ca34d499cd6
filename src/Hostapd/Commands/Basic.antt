-- ===== src/Hostapd/Commands/Basic.antt =====
-- The handlers for stations, for variables and for hostapd itself.
use transmitter_linux.Common.{
  ℕ, Bool, true, false, List, [], ◌&&◌, ◌||◌, ◌==◌, ltb, not, if◌then◌else◌, codes, length,
}
use transmitter_linux.Machine.{
  done, M, ◌>>=◌, ◌>>◌, pure, say, Env, bad_arguments, too_long, result_of,
}
use transmitter_linux.Hostapd.Control.{sem_post, wpa_ctrl_command}
use transmitter_linux.Hostapd.Commands.Format.{
  snprintf_error, words, argv, same_text, refuse, send_cut, send_checked,
}

module _ (env : Env) where
  -- The text that three handlers share, which differ in the name.
  unfoldable pub station_command : List ℕ → List (List ℕ) → M Bool
  unfolding refuse send_cut
  station_command name args =
      if ltb (length args) 1
      then refuse
      else if ltb 1 (length args)
      then send_cut env 64 (words (words name (argv args 0)) (argv args 1))
      else send_cut env 64 (words name (argv args 0))

  abbrev pub hostapd_cli_cmd_sta : List (List ℕ) → M Bool
  hostapd_cli_cmd_sta args = station_command (codes "STA") args

  abbrev pub hostapd_cli_cmd_deauthenticate : List (List ℕ) → M Bool
  hostapd_cli_cmd_deauthenticate args = station_command (codes "DEAUTHENTICATE") args

  abbrev pub hostapd_cli_cmd_disassociate : List (List ℕ) → M Bool
  hostapd_cli_cmd_disassociate args = station_command (codes "DISASSOCIATE") args

  unfoldable pub hostapd_cli_cmd_new_sta : List (List ℕ) → M Bool
  unfolding refuse send_cut
  hostapd_cli_cmd_new_sta args =
      if not (length args == 1)
      then refuse
      else send_cut env 64 (words (codes "NEW_STA") (argv args 0))

  unfoldable pub hostapd_cli_cmd_status : List (List ℕ) → M Bool
  unfolding same_text
  hostapd_cli_cmd_status args = wpa_ctrl_command env true (
      if ltb 0 (length args) && same_text (argv args 0) (codes "driver")
      then codes "STATUS-DRIVER"
      else codes "STATUS")

  unfoldable pub hostapd_cli_cmd_mib : List (List ℕ) → M Bool
  unfolding send_cut
  hostapd_cli_cmd_mib args =
      if ltb 0 (length args)
      then send_cut env 100 (words (codes "MIB") (argv args 0))
      else wpa_ctrl_command env true (codes "MIB")

  -- Returns 0 on a wrong count of arguments.
  unfoldable pub hostapd_cli_cmd_level : List (List ℕ) → M Bool
  unfolding send_cut
  hostapd_cli_cmd_level args =
      if not (length args == 1)
      then (say bad_arguments >>= λ _. pure true)
      else send_cut env 256 (words (codes "LEVEL") (argv args 0))

  -- The request of `set`, for the text that the buffer of 2048 bytes is to hold.
  unfoldable pub send_set : List ℕ → M Bool
  send_set cmd =
      if snprintf_error 2048 cmd
      then (say too_long >>= λ _. pure false)
      else (say (result_of cmd) >>= λ _. wpa_ctrl_command env true cmd)

  unfoldable pub hostapd_cli_cmd_set : List (List ℕ) → M Bool
  unfolding refuse send_set
  hostapd_cli_cmd_set args =
      if not (length args == 2)
      then refuse
      else send_set (words (words (codes "SET") (argv args 0)) (argv args 1))

  unfoldable pub hostapd_cli_cmd_get : List (List ℕ) → M Bool
  unfolding refuse send_checked
  hostapd_cli_cmd_get args =
      if not (length args == 1)
      then refuse
      else send_checked env 256 (words (codes "GET") (argv args 0))

  unfoldable pub hostapd_cli_cmd_vendor : List (List ℕ) → M Bool
  unfolding refuse send_checked
  hostapd_cli_cmd_vendor args =
      if ltb (length args) 2 || ltb 3 (length args)
      then refuse
      else send_checked env 256 (
          words (words (words (codes "VENDOR") (argv args 0)) (argv args 1))
            (if length args == 3 then argv args 2 else []))

  unfoldable pub hostapd_cli_cmd_update_beacon : M Bool
  hostapd_cli_cmd_update_beacon = do
    say (result_of (codes "update_beacon"))
    wpa_ctrl_command env true (codes "UPDATE_BEACON")

  -- `interactive` is 1, so that the event loop is told to end.
  unfoldable pub hostapd_cli_cmd_quit : M Bool
  unfolding sem_post
  hostapd_cli_cmd_quit w = done true (sem_post (record w { cli_quit = true }))
