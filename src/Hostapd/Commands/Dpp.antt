-- ===== src/Hostapd/Commands/Dpp.antt =====
-- The handlers that are only in the build when CONFIG_DPP is defined.
use transmitter_linux.Common.{ℕ, Bool, true, List, codes}
use transmitter_linux.Machine.{M, Env}
use transmitter_linux.Hostapd.Control.{wpa_ctrl_command}
use transmitter_linux.Hostapd.Commands.Format.{hostapd_cli_cmd}

module _ (env : Env) where
  abbrev pub hostapd_cli_cmd_dpp_qr_code : List (List ℕ) → M Bool
  hostapd_cli_cmd_dpp_qr_code args = hostapd_cli_cmd env (codes "DPP_QR_CODE") 1 args

  abbrev pub hostapd_cli_cmd_dpp_bootstrap_gen : List (List ℕ) → M Bool
  hostapd_cli_cmd_dpp_bootstrap_gen args = hostapd_cli_cmd env (codes "DPP_BOOTSTRAP_GEN") 1 args

  abbrev pub hostapd_cli_cmd_dpp_bootstrap_remove : List (List ℕ) → M Bool
  hostapd_cli_cmd_dpp_bootstrap_remove args =
      hostapd_cli_cmd env (codes "DPP_BOOTSTRAP_REMOVE") 1 args

  abbrev pub hostapd_cli_cmd_dpp_bootstrap_get_uri : List (List ℕ) → M Bool
  hostapd_cli_cmd_dpp_bootstrap_get_uri args =
      hostapd_cli_cmd env (codes "DPP_BOOTSTRAP_GET_URI") 1 args

  abbrev pub hostapd_cli_cmd_dpp_bootstrap_info : List (List ℕ) → M Bool
  hostapd_cli_cmd_dpp_bootstrap_info args = hostapd_cli_cmd env (codes "DPP_BOOTSTRAP_INFO") 1 args

  abbrev pub hostapd_cli_cmd_dpp_auth_init : List (List ℕ) → M Bool
  hostapd_cli_cmd_dpp_auth_init args = hostapd_cli_cmd env (codes "DPP_AUTH_INIT") 1 args

  abbrev pub hostapd_cli_cmd_dpp_listen : List (List ℕ) → M Bool
  hostapd_cli_cmd_dpp_listen args = hostapd_cli_cmd env (codes "DPP_LISTEN") 1 args

  abbrev pub hostapd_cli_cmd_dpp_stop_listen : M Bool
  hostapd_cli_cmd_dpp_stop_listen = wpa_ctrl_command env true (codes "DPP_STOP_LISTEN")

  abbrev pub hostapd_cli_cmd_dpp_configurator_add : List (List ℕ) → M Bool
  hostapd_cli_cmd_dpp_configurator_add args =
      hostapd_cli_cmd env (codes "DPP_CONFIGURATOR_ADD") 0 args

  abbrev pub hostapd_cli_cmd_dpp_configurator_remove : List (List ℕ) → M Bool
  hostapd_cli_cmd_dpp_configurator_remove args =
      hostapd_cli_cmd env (codes "DPP_CONFIGURATOR_REMOVE") 1 args

  abbrev pub hostapd_cli_cmd_dpp_configurator_get_key : List (List ℕ) → M Bool
  hostapd_cli_cmd_dpp_configurator_get_key args =
      hostapd_cli_cmd env (codes "DPP_CONFIGURATOR_GET_KEY") 1 args

  abbrev pub hostapd_cli_cmd_dpp_configurator_sign : List (List ℕ) → M Bool
  hostapd_cli_cmd_dpp_configurator_sign args =
      hostapd_cli_cmd env (codes "DPP_CONFIGURATOR_SIGN") 1 args

  abbrev pub hostapd_cli_cmd_dpp_pkex_add : List (List ℕ) → M Bool
  hostapd_cli_cmd_dpp_pkex_add args = hostapd_cli_cmd env (codes "DPP_PKEX_ADD") 1 args

  abbrev pub hostapd_cli_cmd_dpp_pkex_remove : List (List ℕ) → M Bool
  hostapd_cli_cmd_dpp_pkex_remove args = hostapd_cli_cmd env (codes "DPP_PKEX_REMOVE") 1 args
