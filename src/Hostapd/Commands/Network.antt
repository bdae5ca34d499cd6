-- ===== src/Hostapd/Commands/Network.antt =====
-- The handlers for transitions, neighbours, channels and the lists of addresses.
use transmitter_linux.Common.{
  ℕ, Bool, true, false, List, [], ◌++◌, ◌||◌, ◌==◌, leb, ltb, not, if◌then◌else◌, codes, length,
  drop,
}
use transmitter_linux.Machine.{M, ◌>>=◌, pure, say, Env, too_long}
use transmitter_linux.Hostapd.Commands.Format.{
  snprintf_error, words, argv, refuse, append_args, send_checked, send_silent, send_appended,
  hostapd_cli_cmd,
}

module _ (env : Env) where
  unfoldable pub hostapd_cli_cmd_disassoc_imminent : List (List ℕ) → M Bool
  unfolding refuse send_silent
  hostapd_cli_cmd_disassoc_imminent args =
      if ltb (length args) 2
      then refuse
      else send_silent env 300
          (words (words (codes "DISASSOC_IMMINENT") (argv args 0)) (argv args 1))

  unfoldable pub hostapd_cli_cmd_ess_disassoc : List (List ℕ) → M Bool
  unfolding refuse send_silent
  hostapd_cli_cmd_ess_disassoc args =
      if ltb (length args) 3
      then refuse
      else send_silent env 300
          (words (words (words (codes "ESS_DISASSOC") (argv args 0)) (argv args 1)) (argv args 2))

  -- The buffer has 2000 bytes; the first test is the one that the loop makes for the first text.
  unfoldable pub hostapd_cli_cmd_bss_tm_req : List (List ℕ) → M Bool
  unfolding refuse append_args send_appended
  hostapd_cli_cmd_bss_tm_req args =
      if ltb (length args) 1
      then refuse
      else (let first = words (codes "BSS_TM_REQ") (argv args 0) in
          if snprintf_error 2000 first
          then pure false
          else send_appended env false (append_args 2000 first (drop 1 args)))

  unfoldable pub hostapd_cli_cmd_set_qos_map_set : List (List ℕ) → M Bool
  unfolding refuse send_silent
  hostapd_cli_cmd_set_qos_map_set args =
      if not (length args == 1)
      then refuse
      else send_silent env 200 (words (codes "SET_QOS_MAP_SET") (argv args 0))

  unfoldable pub hostapd_cli_cmd_send_qos_map_conf : List (List ℕ) → M Bool
  unfolding refuse send_silent
  hostapd_cli_cmd_send_qos_map_conf args =
      if not (length args == 1)
      then refuse
      else send_silent env 50 (words (codes "SEND_QOS_MAP_CONF") (argv args 0))

  unfoldable pub hostapd_cli_cmd_hs20_wnm_notif : List (List ℕ) → M Bool
  unfolding refuse send_silent
  hostapd_cli_cmd_hs20_wnm_notif args =
      if ltb (length args) 2
      then refuse
      else send_silent env 300 (words (words (codes "HS20_WNM_NOTIF") (argv args 0)) (argv args 1))

  unfoldable pub hostapd_cli_cmd_hs20_deauth_req : List (List ℕ) → M Bool
  unfolding refuse send_silent
  hostapd_cli_cmd_hs20_deauth_req args =
      let three =
        words (words (words (codes "HS20_DEAUTH_REQ") (argv args 0)) (argv args 1)) (argv args 2) in
      if ltb (length args) 3
      then refuse
      else send_silent env 300 (if ltb 3 (length args) then words three (argv args 3) else three)

  unfoldable pub hostapd_cli_cmd_chan_switch : List (List ℕ) → M Bool
  unfolding refuse append_args send_appended
  hostapd_cli_cmd_chan_switch args =
      if ltb (length args) 2
      then refuse
      else (let first = words (words (codes "CHAN_SWITCH") (argv args 0)) (argv args 1) in
          if snprintf_error 256 first
          then (say too_long >>= λ _. pure false)
          else send_appended env true (append_args 256 first (drop 2 args)))

  unfoldable pub hostapd_cli_cmd_log_level : List (List ℕ) → M Bool
  unfolding send_checked
  hostapd_cli_cmd_log_level args = send_checked env 256 (
      codes "LOG_LEVEL"
      ++ ((if leb 1 (length args) then codes " " else [])
          ++ ((if leb 1 (length args) then argv args 0 else [])
              ++ ((if length args == 2 then codes " " else [])
                  ++ (if length args == 2 then argv args 1 else [])))))

  -- Prints nothing when there is no argument.
  unfoldable pub hostapd_cli_cmd_raw : List (List ℕ) → M Bool
  unfolding hostapd_cli_cmd
  hostapd_cli_cmd_raw args =
      if length args == 0 then pure false else hostapd_cli_cmd env (argv args 0) 0 (drop 1 args)

  unfoldable pub hostapd_cli_cmd_set_neighbor : List (List ℕ) → M Bool
  unfolding refuse send_checked
  hostapd_cli_cmd_set_neighbor args =
      let three =
        words (words (words (codes "SET_NEIGHBOR") (argv args 0)) (argv args 1)) (argv args 2) in
      if ltb (length args) 3 || ltb 6 (length args)
      then refuse
      else send_checked env 2048 (
          words
            (words (words three (if leb 4 (length args) then argv args 3 else []))
              (if leb 5 (length args) then argv args 4 else []))
            (if length args == 6 then argv args 5 else []))

  unfoldable pub hostapd_cli_cmd_remove_neighbor : List (List ℕ) → M Bool
  unfolding refuse send_checked
  hostapd_cli_cmd_remove_neighbor args =
      if not (length args == 2)
      then refuse
      else send_checked env 400
          (words (words (codes "REMOVE_NEIGHBOR") (argv args 0)) (argv args 1))

  unfoldable pub hostapd_cli_cmd_req_lci : List (List ℕ) → M Bool
  unfolding refuse send_checked
  hostapd_cli_cmd_req_lci args =
      if not (length args == 1)
      then refuse
      else send_checked env 256 (words (codes "REQ_LCI") (argv args 0))

  unfoldable pub hostapd_cli_cmd_req_range : List (List ℕ) → M Bool
  unfolding refuse hostapd_cli_cmd
  hostapd_cli_cmd_req_range args =
      if ltb (length args) 4 then refuse else hostapd_cli_cmd env (codes "REQ_RANGE") 4 args
