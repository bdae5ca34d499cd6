-- ===== src/Hostapd/Commands/Plain.antt =====
-- The handlers whose request is a fixed text, or the arguments behind a fixed word.
use transmitter_linux.Common.{ℕ, Bool, true, Option, none, some, List, [], ◌∷◌, codes}
use transmitter_linux.Machine.{M, ◌>>=◌, pure, say, Env, help_text, license_text}
use transmitter_linux.Hostapd.Table.{hostapd_cli_commands}
use transmitter_linux.Hostapd.Help.{print_help}
use transmitter_linux.Hostapd.Control.{wpa_ctrl_command}
use transmitter_linux.Hostapd.Commands.Format.{hostapd_cli_cmd}

-- `argc > 0 ? argv[0] : NULL`
abbrev first_word : List (List ℕ) → Option (List ℕ)
first_word [] = none
first_word (word ∷ args) = some word

abbrev pub hostapd_cli_cmd_help : List (List ℕ) → M Bool
hostapd_cli_cmd_help args =
    say (help_text (print_help hostapd_cli_commands (first_word args))) >>= λ _. pure true

abbrev pub hostapd_cli_cmd_license : M Bool
hostapd_cli_cmd_license = say license_text >>= λ _. pure true

module _ (env : Env) where
  abbrev pub hostapd_cli_cmd_ping : M Bool
  hostapd_cli_cmd_ping = wpa_ctrl_command env true (codes "PING")

  abbrev pub hostapd_cli_cmd_relog : M Bool
  hostapd_cli_cmd_relog = wpa_ctrl_command env true (codes "RELOG")

  abbrev pub hostapd_cli_cmd_get_config : M Bool
  hostapd_cli_cmd_get_config = wpa_ctrl_command env true (codes "GET_CONFIG")

  abbrev pub hostapd_cli_cmd_enable : M Bool
  hostapd_cli_cmd_enable = wpa_ctrl_command env true (codes "ENABLE")

  abbrev pub hostapd_cli_cmd_reload : M Bool
  hostapd_cli_cmd_reload = wpa_ctrl_command env true (codes "RELOAD")

  abbrev pub hostapd_cli_cmd_disable : M Bool
  hostapd_cli_cmd_disable = wpa_ctrl_command env true (codes "DISABLE")

  abbrev pub hostapd_cli_cmd_erp_flush : M Bool
  hostapd_cli_cmd_erp_flush = wpa_ctrl_command env true (codes "ERP_FLUSH")

  abbrev pub hostapd_cli_cmd_pmksa : M Bool
  hostapd_cli_cmd_pmksa = wpa_ctrl_command env true (codes "PMKSA")

  abbrev pub hostapd_cli_cmd_pmksa_flush : M Bool
  hostapd_cli_cmd_pmksa_flush = wpa_ctrl_command env true (codes "PMKSA_FLUSH")

  abbrev pub hostapd_cli_cmd_driver_flags : M Bool
  hostapd_cli_cmd_driver_flags = wpa_ctrl_command env true (codes "DRIVER_FLAGS")

  abbrev pub hostapd_cli_cmd_reload_wpa_psk : M Bool
  hostapd_cli_cmd_reload_wpa_psk = wpa_ctrl_command env true (codes "RELOAD_WPA_PSK")

  abbrev pub hostapd_cli_cmd_accept_macacl : List (List ℕ) → M Bool
  hostapd_cli_cmd_accept_macacl args = hostapd_cli_cmd env (codes "ACCEPT_ACL") 1 args

  abbrev pub hostapd_cli_cmd_deny_macacl : List (List ℕ) → M Bool
  hostapd_cli_cmd_deny_macacl args = hostapd_cli_cmd env (codes "DENY_ACL") 1 args

  abbrev pub hostapd_cli_cmd_poll_sta : List (List ℕ) → M Bool
  hostapd_cli_cmd_poll_sta args = hostapd_cli_cmd env (codes "POLL_STA") 1 args

  abbrev pub hostapd_cli_cmd_req_beacon : List (List ℕ) → M Bool
  hostapd_cli_cmd_req_beacon args = hostapd_cli_cmd env (codes "REQ_BEACON") 2 args
