-- ===== src/Hostapd/Handling/Handlers.antt =====
-- Every handler that is not a loop over stations, a change of the connection, or the end.
use transmitter_linux.Common.{
  ℕ, Bool, true, false, List, ltb, codes, length, drop, arith, not, ◌==◌,
}
use transmitter_linux.Machine.{M, Env, World}
use transmitter_linux.Hostapd.Table.{
  Handler, ping, mib, relog, status, sta, all_sta, list_sta, new_sta, deauthenticate, disassociate,
  disassoc_imminent, ess_disassoc, bss_tm_req, get_config, help, interface, raw, level, license,
  quit, set_handler, get, set_qos_map_set, send_qos_map_conf, chan_switch, hs20_wnm_notif,
  hs20_deauth_req, vendor, enable, reload, disable, update_beacon, erp_flush, log_level, pmksa,
  pmksa_flush, set_neighbor, remove_neighbor, req_lci, req_range, driver_flags, accept_macacl,
  deny_macacl, poll_sta, req_beacon, reload_wpa_psk,
}
use transmitter_linux.Hostapd.Commands.{
  words, argv, snprintf_error, send_set, station_command, hostapd_cli_cmd_new_sta,
  hostapd_cli_cmd_status, hostapd_cli_cmd_mib, hostapd_cli_cmd_level, hostapd_cli_cmd_set,
  hostapd_cli_cmd_get, hostapd_cli_cmd_vendor, hostapd_cli_cmd_update_beacon,
  hostapd_cli_cmd_disassoc_imminent, hostapd_cli_cmd_ess_disassoc, hostapd_cli_cmd_bss_tm_req,
  hostapd_cli_cmd_set_qos_map_set, hostapd_cli_cmd_send_qos_map_conf,
  hostapd_cli_cmd_hs20_wnm_notif, hostapd_cli_cmd_hs20_deauth_req, hostapd_cli_cmd_chan_switch,
  hostapd_cli_cmd_log_level, hostapd_cli_cmd_raw, hostapd_cli_cmd_set_neighbor,
  hostapd_cli_cmd_remove_neighbor, hostapd_cli_cmd_req_lci, hostapd_cli_cmd_req_range, run_handler,
}
use transmitter_linux.Hostapd.Handling.Requests.{
  HandledBy, Handles, Handles-pure, Handles-say, Handles-if, Handles-fits, Handles-refuse,
  Handles-command, Handles-cut, Handles-checked, Handles-silent, Handles-appended, Handles-cmd,
  WriteCmdFits, length-snprintf,
}

-- The handlers that make one request at most.
abbrev pub OneRequest : Handler → Type 0
OneRequest all_sta = ⊥
OneRequest list_sta = ⊥
OneRequest interface = ⊥
OneRequest quit = ⊥
OneRequest h = Unit

ruleset handling = (
  arith, Handles-pure, Handles-say, Handles-if, Handles-refuse, Handles-command, Handles-cut,
  Handles-checked, Handles-silent, Handles-cmd, length-snprintf,
)

module _ (env : Env) where
  hostapd_cli_cmd_disassoc_imminent-Handles :
      (args : List (List ℕ)) → Handles (hostapd_cli_cmd_disassoc_imminent env args)
  unfolding hostapd_cli_cmd_disassoc_imminent
  hostapd_cli_cmd_disassoc_imminent-Handles args = search handling

  hostapd_cli_cmd_ess_disassoc-Handles :
      (args : List (List ℕ)) → Handles (hostapd_cli_cmd_ess_disassoc env args)
  unfolding hostapd_cli_cmd_ess_disassoc
  hostapd_cli_cmd_ess_disassoc-Handles args = search handling

  hostapd_cli_cmd_set_qos_map_set-Handles :
      (args : List (List ℕ)) → Handles (hostapd_cli_cmd_set_qos_map_set env args)
  unfolding hostapd_cli_cmd_set_qos_map_set
  hostapd_cli_cmd_set_qos_map_set-Handles args = search handling

  hostapd_cli_cmd_send_qos_map_conf-Handles :
      (args : List (List ℕ)) → Handles (hostapd_cli_cmd_send_qos_map_conf env args)
  unfolding hostapd_cli_cmd_send_qos_map_conf
  hostapd_cli_cmd_send_qos_map_conf-Handles args = search handling

  hostapd_cli_cmd_hs20_wnm_notif-Handles :
      (args : List (List ℕ)) → Handles (hostapd_cli_cmd_hs20_wnm_notif env args)
  unfolding hostapd_cli_cmd_hs20_wnm_notif
  hostapd_cli_cmd_hs20_wnm_notif-Handles args = search handling

  hostapd_cli_cmd_hs20_deauth_req-Handles :
      (args : List (List ℕ)) → Handles (hostapd_cli_cmd_hs20_deauth_req env args)
  unfolding hostapd_cli_cmd_hs20_deauth_req
  hostapd_cli_cmd_hs20_deauth_req-Handles args = search handling

  hostapd_cli_cmd_log_level-Handles :
      (args : List (List ℕ)) → Handles (hostapd_cli_cmd_log_level env args)
  unfolding hostapd_cli_cmd_log_level
  hostapd_cli_cmd_log_level-Handles args = search handling

  hostapd_cli_cmd_set_neighbor-Handles :
      (args : List (List ℕ)) → Handles (hostapd_cli_cmd_set_neighbor env args)
  unfolding hostapd_cli_cmd_set_neighbor
  hostapd_cli_cmd_set_neighbor-Handles args = search handling

  hostapd_cli_cmd_remove_neighbor-Handles :
      (args : List (List ℕ)) → Handles (hostapd_cli_cmd_remove_neighbor env args)
  unfolding hostapd_cli_cmd_remove_neighbor
  hostapd_cli_cmd_remove_neighbor-Handles args = search handling

  hostapd_cli_cmd_req_lci-Handles :
      (args : List (List ℕ)) → Handles (hostapd_cli_cmd_req_lci env args)
  unfolding hostapd_cli_cmd_req_lci
  hostapd_cli_cmd_req_lci-Handles args = search handling

  hostapd_cli_cmd_new_sta-Handles :
      (args : List (List ℕ)) → Handles (hostapd_cli_cmd_new_sta env args)
  unfolding hostapd_cli_cmd_new_sta
  hostapd_cli_cmd_new_sta-Handles args =
      Handles-if (not (length args == 1)) Handles-refuse
        (Handles-cut env 64 (words (codes "NEW_STA") (argv args 0)) (omega arith))

  hostapd_cli_cmd_get-Handles : (args : List (List ℕ)) → Handles (hostapd_cli_cmd_get env args)
  unfolding hostapd_cli_cmd_get
  hostapd_cli_cmd_get-Handles args = search handling

  hostapd_cli_cmd_vendor-Handles :
      (args : List (List ℕ)) → Handles (hostapd_cli_cmd_vendor env args)
  unfolding hostapd_cli_cmd_vendor
  hostapd_cli_cmd_vendor-Handles args = search handling

  station_command-Handles :
      (name : List ℕ) (args : List (List ℕ)) → Handles (station_command env name args)
  unfolding station_command
  station_command-Handles name args = Handles-if (ltb (length args) 1) Handles-refuse (
      Handles-if (ltb 1 (length args))
        (Handles-cut env 64 (words (words name (argv args 0)) (argv args 1)) (omega arith))
        (Handles-cut env 64 (words name (argv args 0)) (omega arith)))

  hostapd_cli_cmd_status-Handles :
      (args : List (List ℕ)) → Handles (hostapd_cli_cmd_status env args)
  unfolding hostapd_cli_cmd_status
  hostapd_cli_cmd_status-Handles args = Handles-command env _ (ground arith)

  hostapd_cli_cmd_mib-Handles : (args : List (List ℕ)) → Handles (hostapd_cli_cmd_mib env args)
  unfolding hostapd_cli_cmd_mib
  hostapd_cli_cmd_mib-Handles args =
      Handles-if (ltb 0 (length args))
        (Handles-cut env 100 (words (codes "MIB") (argv args 0)) (omega arith))
        (Handles-command env (codes "MIB") (omega arith))

  hostapd_cli_cmd_level-Handles : (args : List (List ℕ)) → Handles (hostapd_cli_cmd_level env args)
  unfolding hostapd_cli_cmd_level
  hostapd_cli_cmd_level-Handles args =
      Handles-if (not (length args == 1)) (Handles-say _ (Handles-pure true))
        (Handles-cut env 256 (words (codes "LEVEL") (argv args 0)) (omega arith))

  send_set-Handles : (cmd : List ℕ) → Handles (send_set env cmd)
  unfolding send_set
  send_set-Handles cmd =
      Handles-fits (snprintf_error 2048 cmd) (Handles-say _ (Handles-pure false))
        λ fits. Handles-say _ (Handles-command env cmd (ground (arith, fits)))

  hostapd_cli_cmd_set-Handles : (args : List (List ℕ)) → Handles (hostapd_cli_cmd_set env args)
  unfolding hostapd_cli_cmd_set
  hostapd_cli_cmd_set-Handles args = search (handling, send_set-Handles)

  hostapd_cli_cmd_update_beacon-Handles : Handles (hostapd_cli_cmd_update_beacon env)
  unfolding hostapd_cli_cmd_update_beacon
  hostapd_cli_cmd_update_beacon-Handles = search handling

  hostapd_cli_cmd_bss_tm_req-Handles :
      (args : List (List ℕ)) → Handles (hostapd_cli_cmd_bss_tm_req env args)
  unfolding hostapd_cli_cmd_bss_tm_req
  hostapd_cli_cmd_bss_tm_req-Handles args = Handles-if _ Handles-refuse (
      Handles-fits (snprintf_error 2000 (words (codes "BSS_TM_REQ") (argv args 0)))
        (Handles-pure false)
        λ fits.
          Handles-appended env false 2000 (words (codes "BSS_TM_REQ") (argv args 0)) (drop 1 args)
            (omega arith) (ground (arith, fits)))

  hostapd_cli_cmd_chan_switch-Handles :
      (args : List (List ℕ)) → Handles (hostapd_cli_cmd_chan_switch env args)
  unfolding hostapd_cli_cmd_chan_switch
  hostapd_cli_cmd_chan_switch-Handles args =
      let first = words (words (codes "CHAN_SWITCH") (argv args 0)) (argv args 1) in
      Handles-if _ Handles-refuse (
        Handles-fits (snprintf_error 256 first) (Handles-say _ (Handles-pure false)) λ fits.
          Handles-appended env true 256 first (drop 2 args) (omega arith) (ground (arith, fits)))

  hostapd_cli_cmd_raw-Handles :
      (args : List (List ℕ)) → WriteCmdFits env → Handles (hostapd_cli_cmd_raw env args)
  unfolding hostapd_cli_cmd_raw
  hostapd_cli_cmd_raw-Handles args fits =
      Handles-if _ (Handles-pure false) (Handles-cmd env (argv args 0) 0 (drop 1 args) fits)

  hostapd_cli_cmd_req_range-Handles :
      (args : List (List ℕ)) → WriteCmdFits env → Handles (hostapd_cli_cmd_req_range env args)
  unfolding hostapd_cli_cmd_req_range
  hostapd_cli_cmd_req_range-Handles args fits =
      Handles-if _ Handles-refuse (Handles-cmd env (codes "REQ_RANGE") 4 args fits)

  run_handler-Handles :
      (other : Handler → List (List ℕ) → M Bool) (h : Handler) (args : List (List ℕ))
      → OneRequest h
      → WriteCmdFits env
      → Handles (run_handler env other h args)
  unfolding run_handler
  run_handler-Handles other ping args one fits = search handling
  run_handler-Handles other mib args one fits = hostapd_cli_cmd_mib-Handles args
  run_handler-Handles other relog args one fits = search handling
  run_handler-Handles other status args one fits = hostapd_cli_cmd_status-Handles args
  run_handler-Handles other sta args one fits = station_command-Handles (codes "STA") args
  run_handler-Handles other all_sta args one fits = absurd one
  run_handler-Handles other list_sta args one fits = absurd one
  run_handler-Handles other new_sta args one fits = hostapd_cli_cmd_new_sta-Handles args
  run_handler-Handles other deauthenticate args one fits =
      station_command-Handles (codes "DEAUTHENTICATE") args
  run_handler-Handles other disassociate args one fits =
      station_command-Handles (codes "DISASSOCIATE") args
  run_handler-Handles other disassoc_imminent args one fits =
      hostapd_cli_cmd_disassoc_imminent-Handles args
  run_handler-Handles other ess_disassoc args one fits = hostapd_cli_cmd_ess_disassoc-Handles args
  run_handler-Handles other bss_tm_req args one fits = hostapd_cli_cmd_bss_tm_req-Handles args
  run_handler-Handles other get_config args one fits = search handling
  run_handler-Handles other help args one fits = search handling
  run_handler-Handles other interface args one fits = absurd one
  run_handler-Handles other raw args one fits = hostapd_cli_cmd_raw-Handles args fits
  run_handler-Handles other level args one fits = hostapd_cli_cmd_level-Handles args
  run_handler-Handles other license args one fits = search handling
  run_handler-Handles other quit args one fits = absurd one
  run_handler-Handles other set_handler args one fits = hostapd_cli_cmd_set-Handles args
  run_handler-Handles other get args one fits = hostapd_cli_cmd_get-Handles args
  run_handler-Handles other set_qos_map_set args one fits =
      hostapd_cli_cmd_set_qos_map_set-Handles args
  run_handler-Handles other send_qos_map_conf args one fits =
      hostapd_cli_cmd_send_qos_map_conf-Handles args
  run_handler-Handles other chan_switch args one fits = hostapd_cli_cmd_chan_switch-Handles args
  run_handler-Handles other hs20_wnm_notif args one fits =
      hostapd_cli_cmd_hs20_wnm_notif-Handles args
  run_handler-Handles other hs20_deauth_req args one fits =
      hostapd_cli_cmd_hs20_deauth_req-Handles args
  run_handler-Handles other vendor args one fits = hostapd_cli_cmd_vendor-Handles args
  run_handler-Handles other enable args one fits = search handling
  run_handler-Handles other reload args one fits = search handling
  run_handler-Handles other disable args one fits = search handling
  run_handler-Handles other update_beacon args one fits = hostapd_cli_cmd_update_beacon-Handles
  run_handler-Handles other erp_flush args one fits = search handling
  run_handler-Handles other log_level args one fits = hostapd_cli_cmd_log_level-Handles args
  run_handler-Handles other pmksa args one fits = search handling
  run_handler-Handles other pmksa_flush args one fits = search handling
  run_handler-Handles other set_neighbor args one fits = hostapd_cli_cmd_set_neighbor-Handles args
  run_handler-Handles other remove_neighbor args one fits =
      hostapd_cli_cmd_remove_neighbor-Handles args
  run_handler-Handles other req_lci args one fits = hostapd_cli_cmd_req_lci-Handles args
  run_handler-Handles other req_range args one fits = hostapd_cli_cmd_req_range-Handles args fits
  run_handler-Handles other driver_flags args one fits = search handling
  run_handler-Handles other accept_macacl args one fits = search handling
  run_handler-Handles other deny_macacl args one fits = search handling
  run_handler-Handles other poll_sta args one fits = search handling
  run_handler-Handles other req_beacon args one fits = search handling
  run_handler-Handles other reload_wpa_psk args one fits = search handling

  -- Every handler but `all_sta`, `list_sta`, `interface` and `quit` returns, whatever its arguments
  -- and whatever hostapd answers, and has made at most one request, of less than 4096 characters,
  -- has posted the semaphore exactly as often as it has made a request, and has left the
  -- connection, the event loop and the other thread's schedule as they were, where `write_cmd`
  -- writes no more than its buffer holds.
  pub run_handler-HandledBy :
      (other : Handler → List (List ℕ) → M Bool) (h : Handler) (args : List (List ℕ)) (w : World)
      → OneRequest h
      → WriteCmdFits env
      → HandledBy w (run_handler env other h args w)
  run_handler-HandledBy other h args w one fits =
      (run_handler-Handles other h args one fits).handles w
