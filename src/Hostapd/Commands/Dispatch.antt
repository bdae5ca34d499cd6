-- ===== src/Hostapd/Commands/Dispatch.antt =====
-- The handler that a word names, and its run. The handlers that loop over hostapd's stations or
-- that change the connection are the parameter `other`: Stations has the loops.
use transmitter_linux.Common.{ℕ, zero, suc, Bool, Option, none, some, List, [], ◌∷◌}
use transmitter_linux.Machine.{
  M, ◌>>=◌, skip, say, undefined, Env, ambiguous_command, unknown_command,
}
use transmitter_linux.Hostapd.Table.{
  Handler, ping, mib, relog, status, sta, all_sta, list_sta, new_sta, deauthenticate, disassociate,
  disassoc_imminent, ess_disassoc, bss_tm_req, get_config, help, interface, raw, level, license,
  quit, set_handler, get, set_qos_map_set, send_qos_map_conf, chan_switch, hs20_wnm_notif,
  hs20_deauth_req, vendor, enable, reload, disable, update_beacon, erp_flush, log_level, pmksa,
  pmksa_flush, set_neighbor, remove_neighbor, req_lci, req_range, driver_flags, accept_macacl,
  deny_macacl, poll_sta, req_beacon, reload_wpa_psk, hostapd_cli_commands, find_command,
  possible_commands,
}
use transmitter_linux.Hostapd.Commands.Plain.{
  hostapd_cli_cmd_help, hostapd_cli_cmd_license, hostapd_cli_cmd_ping, hostapd_cli_cmd_relog,
  hostapd_cli_cmd_get_config, hostapd_cli_cmd_enable, hostapd_cli_cmd_reload,
  hostapd_cli_cmd_disable, hostapd_cli_cmd_erp_flush, hostapd_cli_cmd_pmksa,
  hostapd_cli_cmd_pmksa_flush, hostapd_cli_cmd_driver_flags, hostapd_cli_cmd_reload_wpa_psk,
  hostapd_cli_cmd_accept_macacl, hostapd_cli_cmd_deny_macacl, hostapd_cli_cmd_poll_sta,
  hostapd_cli_cmd_req_beacon,
}
use transmitter_linux.Hostapd.Commands.Basic.{
  hostapd_cli_cmd_sta, hostapd_cli_cmd_deauthenticate, hostapd_cli_cmd_disassociate,
  hostapd_cli_cmd_new_sta, hostapd_cli_cmd_status, hostapd_cli_cmd_mib, hostapd_cli_cmd_level,
  hostapd_cli_cmd_set, hostapd_cli_cmd_get, hostapd_cli_cmd_vendor, hostapd_cli_cmd_update_beacon,
  hostapd_cli_cmd_quit,
}
use transmitter_linux.Hostapd.Commands.Network.{
  hostapd_cli_cmd_disassoc_imminent, hostapd_cli_cmd_ess_disassoc, hostapd_cli_cmd_bss_tm_req,
  hostapd_cli_cmd_set_qos_map_set, hostapd_cli_cmd_send_qos_map_conf,
  hostapd_cli_cmd_hs20_wnm_notif, hostapd_cli_cmd_hs20_deauth_req, hostapd_cli_cmd_chan_switch,
  hostapd_cli_cmd_log_level, hostapd_cli_cmd_raw, hostapd_cli_cmd_set_neighbor,
  hostapd_cli_cmd_remove_neighbor, hostapd_cli_cmd_req_lci, hostapd_cli_cmd_req_range,
}

module _ (env : Env) (other : Handler → List (List ℕ) → M Bool) where
  -- `match->handler(ctrl, argc - 1, &argv[1])`
  unfoldable pub run_handler : Handler → List (List ℕ) → M Bool
  run_handler ping args = hostapd_cli_cmd_ping env
  run_handler mib args = hostapd_cli_cmd_mib env args
  run_handler relog args = hostapd_cli_cmd_relog env
  run_handler status args = hostapd_cli_cmd_status env args
  run_handler sta args = hostapd_cli_cmd_sta env args
  run_handler all_sta args = other all_sta args
  run_handler list_sta args = other list_sta args
  run_handler new_sta args = hostapd_cli_cmd_new_sta env args
  run_handler deauthenticate args = hostapd_cli_cmd_deauthenticate env args
  run_handler disassociate args = hostapd_cli_cmd_disassociate env args
  run_handler disassoc_imminent args = hostapd_cli_cmd_disassoc_imminent env args
  run_handler ess_disassoc args = hostapd_cli_cmd_ess_disassoc env args
  run_handler bss_tm_req args = hostapd_cli_cmd_bss_tm_req env args
  run_handler get_config args = hostapd_cli_cmd_get_config env
  run_handler help args = hostapd_cli_cmd_help args
  run_handler interface args = other interface args
  run_handler raw args = hostapd_cli_cmd_raw env args
  run_handler level args = hostapd_cli_cmd_level env args
  run_handler license args = hostapd_cli_cmd_license
  run_handler quit args = hostapd_cli_cmd_quit env
  run_handler set_handler args = hostapd_cli_cmd_set env args
  run_handler get args = hostapd_cli_cmd_get env args
  run_handler set_qos_map_set args = hostapd_cli_cmd_set_qos_map_set env args
  run_handler send_qos_map_conf args = hostapd_cli_cmd_send_qos_map_conf env args
  run_handler chan_switch args = hostapd_cli_cmd_chan_switch env args
  run_handler hs20_wnm_notif args = hostapd_cli_cmd_hs20_wnm_notif env args
  run_handler hs20_deauth_req args = hostapd_cli_cmd_hs20_deauth_req env args
  run_handler vendor args = hostapd_cli_cmd_vendor env args
  run_handler enable args = hostapd_cli_cmd_enable env
  run_handler reload args = hostapd_cli_cmd_reload env
  run_handler disable args = hostapd_cli_cmd_disable env
  run_handler update_beacon args = hostapd_cli_cmd_update_beacon env
  run_handler erp_flush args = hostapd_cli_cmd_erp_flush env
  run_handler log_level args = hostapd_cli_cmd_log_level env args
  run_handler pmksa args = hostapd_cli_cmd_pmksa env
  run_handler pmksa_flush args = hostapd_cli_cmd_pmksa_flush env
  run_handler set_neighbor args = hostapd_cli_cmd_set_neighbor env args
  run_handler remove_neighbor args = hostapd_cli_cmd_remove_neighbor env args
  run_handler req_lci args = hostapd_cli_cmd_req_lci env args
  run_handler req_range args = hostapd_cli_cmd_req_range env args
  run_handler driver_flags args = hostapd_cli_cmd_driver_flags env
  run_handler accept_macacl args = hostapd_cli_cmd_accept_macacl env args
  run_handler deny_macacl args = hostapd_cli_cmd_deny_macacl env args
  run_handler poll_sta args = hostapd_cli_cmd_poll_sta env args
  run_handler req_beacon args = hostapd_cli_cmd_req_beacon env args
  run_handler reload_wpa_psk args = hostapd_cli_cmd_reload_wpa_psk env

  -- The three ways out of the search: several matches, none, or one handler to run.
  unfoldable pub dispatch : List ℕ → List (List ℕ) → Option Handler × ℕ → M (Unit {0})
  unfolding run_handler
  dispatch word args (match, zero) = say (unknown_command word)
  dispatch word args (none, suc zero) = undefined
  dispatch word args (some handler, suc zero) = run_handler handler args >>= λ _. skip
  dispatch word args (match, suc (suc n)) =
      say (ambiguous_command (possible_commands hostapd_cli_commands word))

  -- With no word at all `strlen(argv[0])` reads through a null pointer.
  unfoldable pub wpa_request : List (List ℕ) → M (Unit {0})
  unfolding dispatch find_command
  wpa_request [] = undefined
  wpa_request (word ∷ args) = dispatch word args (find_command hostapd_cli_commands word none 0)
