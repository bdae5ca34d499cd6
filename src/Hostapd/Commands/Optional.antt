-- ===== src/Hostapd/Commands/Optional.antt =====
-- The handlers that the build leaves out unless CONFIG_TAXONOMY, CONFIG_IEEE80211W, CONFIG_WPS,
-- CONFIG_WPS_NFC, CONFIG_FST or CONFIG_DPP is defined, which CMakeLists.txt does not do.
use transmitter_linux.Common.{
  ℕ, ◌+◌, ◌/◌, ◌%◌, Bool, true, false, List, [], ◌∷◌, ◌++◌, ◌&&◌, ◌==◌, leb, ltb, not,
  if◌then◌else◌, codes, length, take,
}
use transmitter_linux.Machine.{M, pure, undefined, Env}
use transmitter_linux.Hostapd.Control.{wpa_ctrl_command}
use transmitter_linux.Hostapd.Commands.Format.{
  words, argv, refuse, append_args, send_cut, send_checked, send_appended,
}
use transmitter_linux.Hostapd.Commands.Dpp.{
  hostapd_cli_cmd_dpp_qr_code, hostapd_cli_cmd_dpp_bootstrap_gen,
  hostapd_cli_cmd_dpp_bootstrap_remove, hostapd_cli_cmd_dpp_bootstrap_get_uri,
  hostapd_cli_cmd_dpp_bootstrap_info, hostapd_cli_cmd_dpp_auth_init, hostapd_cli_cmd_dpp_listen,
  hostapd_cli_cmd_dpp_stop_listen, hostapd_cli_cmd_dpp_configurator_add,
  hostapd_cli_cmd_dpp_configurator_remove, hostapd_cli_cmd_dpp_configurator_get_key,
  hostapd_cli_cmd_dpp_configurator_sign, hostapd_cli_cmd_dpp_pkex_add,
  hostapd_cli_cmd_dpp_pkex_remove,
}

-- A constructor for each of their rows in the command table.
pub data OptionalHandler : Type 0 where
  signature sa_query wps_pin wps_check_pin wps_pbc wps_cancel : OptionalHandler
  wps_nfc_tag_read wps_nfc_config_token wps_nfc_token nfc_get_handover_sel : OptionalHandler
  wps_ap_pin wps_config wps_get_status fst : OptionalHandler
  dpp_qr_code dpp_bootstrap_gen dpp_bootstrap_remove dpp_bootstrap_get_uri : OptionalHandler
  dpp_bootstrap_info dpp_auth_init dpp_listen dpp_stop_listen : OptionalHandler
  dpp_configurator_add dpp_configurator_remove dpp_configurator_get_key : OptionalHandler
  dpp_configurator_sign dpp_pkex_add dpp_pkex_remove : OptionalHandler

-- What the C library and hostapd's headers decide: whether `char` is signed, SSID_MAX_LEN, and
-- whether `os_malloc` finds so many bytes.
pub record Platform : Type 0 where
  pub char_signed : Bool
  pub ssid_max_len : ℕ
  pub allocates : ℕ → Bool

-- A digit of "%x".
abbrev lower_digit : ℕ → ℕ
lower_digit n = if ltb n 10 then 48 + n else 87 + n

-- `os_snprintf(…, 3, "%02x", c)`: a negative `char` prints as eight digits, of which two fit.
abbrev pub hex_char : Bool → ℕ → List ℕ
hex_char char_signed c =
    if char_signed && leb 128 c
    then codes "ff"
    else lower_digit (c / 16 % 16) ∷ lower_digit (c % 16) ∷ []

-- The loop that writes a text of at most so many characters.
unfoldable pub hex_text : Bool → List ℕ → List ℕ
hex_text char_signed [] = []
hex_text char_signed (c ∷ rest) = hex_char char_signed c ++ hex_text char_signed rest

module _ (env : Env) (platform : Platform) where
  unfoldable pub hostapd_cli_cmd_signature : List (List ℕ) → M Bool
  unfolding refuse send_cut
  hostapd_cli_cmd_signature args =
      if not (length args == 1)
      then refuse
      else send_cut env 64 (words (codes "SIGNATURE") (argv args 0))

  unfoldable pub hostapd_cli_cmd_sa_query : List (List ℕ) → M Bool
  unfolding refuse send_cut
  hostapd_cli_cmd_sa_query args =
      if not (length args == 1)
      then refuse
      else send_cut env 64 (words (codes "SA_QUERY") (argv args 0))

  unfoldable pub hostapd_cli_cmd_wps_pin : List (List ℕ) → M Bool
  unfolding refuse send_cut
  hostapd_cli_cmd_wps_pin args =
      let two = words (words (codes "WPS_PIN") (argv args 0)) (argv args 1) in
      if ltb (length args) 2
      then refuse
      else send_cut env 256 (
          if ltb 3 (length args)
          then words (words two (argv args 2)) (argv args 3)
          else if ltb 2 (length args)
          then words two (argv args 2)
          else two)

  unfoldable pub hostapd_cli_cmd_wps_check_pin : List (List ℕ) → M Bool
  unfolding refuse send_checked
  hostapd_cli_cmd_wps_check_pin args =
      let one = words (codes "WPS_CHECK_PIN") (argv args 0) in
      if not (length args == 1) && not (length args == 2)
      then refuse
      else send_checked env 256 (if length args == 2 then words one (argv args 1) else one)

  unfoldable pub hostapd_cli_cmd_wps_nfc_tag_read : List (List ℕ) → M Bool
  unfolding refuse send_cut
  hostapd_cli_cmd_wps_nfc_tag_read args =
      let buflen = 18 + length (argv args 0) in
      if not (length args == 1)
      then refuse
      else if not (platform.allocates buflen)
      then pure false
      else send_cut env buflen (words (codes "WPS_NFC_TAG_READ") (argv args 0))

  unfoldable pub hostapd_cli_cmd_wps_nfc_config_token : List (List ℕ) → M Bool
  unfolding refuse send_checked
  hostapd_cli_cmd_wps_nfc_config_token args =
      if not (length args == 1)
      then refuse
      else send_checked env 64 (words (codes "WPS_NFC_CONFIG_TOKEN") (argv args 0))

  unfoldable pub hostapd_cli_cmd_wps_nfc_token : List (List ℕ) → M Bool
  unfolding refuse send_checked
  hostapd_cli_cmd_wps_nfc_token args =
      if not (length args == 1)
      then refuse
      else send_checked env 64 (words (codes "WPS_NFC_TOKEN") (argv args 0))

  unfoldable pub hostapd_cli_cmd_nfc_get_handover_sel : List (List ℕ) → M Bool
  unfolding refuse send_checked
  hostapd_cli_cmd_nfc_get_handover_sel args =
      if not (length args == 2)
      then refuse
      else send_checked env 64
          (words (words (codes "NFC_GET_HANDOVER_SEL") (argv args 0)) (argv args 1))

  unfoldable pub hostapd_cli_cmd_wps_ap_pin : List (List ℕ) → M Bool
  unfolding refuse send_cut
  hostapd_cli_cmd_wps_ap_pin args =
      let one = words (codes "WPS_AP_PIN") (argv args 0) in
      if ltb (length args) 1
      then refuse
      else send_cut env 64 (
          if ltb 2 (length args)
          then words (words one (argv args 1)) (argv args 2)
          else if ltb 1 (length args)
          then words one (argv args 1)
          else one)

  -- With a single argument the text is made from `argv[1]`, which is not there.
  unfoldable pub hostapd_cli_cmd_wps_config : List (List ℕ) → M Bool
  unfolding refuse send_cut hex_text
  hostapd_cli_cmd_wps_config args =
      let ssid_hex = hex_text platform.char_signed (take platform.ssid_max_len (argv args 0)) in
      let key_hex = hex_text platform.char_signed (take 64 (argv args 3)) in
      let two = words (words (codes "WPS_CONFIG") ssid_hex) (argv args 1) in
      if ltb (length args) 1
      then refuse
      else if length args == 1
      then undefined
      else send_cut env 256 (
          if ltb 3 (length args)
          then words (words two (argv args 2)) key_hex
          else if ltb 2 (length args)
          then words two (argv args 2)
          else two)

  unfoldable pub hostapd_cli_cmd_fst : List (List ℕ) → M Bool
  unfolding refuse append_args send_appended
  hostapd_cli_cmd_fst args =
      if length args == 0
      then refuse
      else send_appended env true (append_args 256 (codes "FST-MANAGER") args)

  abbrev pub hostapd_cli_cmd_wps_pbc : M Bool
  hostapd_cli_cmd_wps_pbc = wpa_ctrl_command env true (codes "WPS_PBC")

  abbrev pub hostapd_cli_cmd_wps_cancel : M Bool
  hostapd_cli_cmd_wps_cancel = wpa_ctrl_command env true (codes "WPS_CANCEL")

  abbrev pub hostapd_cli_cmd_wps_get_status : M Bool
  hostapd_cli_cmd_wps_get_status = wpa_ctrl_command env true (codes "WPS_GET_STATUS")

  unfoldable pub run_optional : OptionalHandler → List (List ℕ) → M Bool
  run_optional signature args = hostapd_cli_cmd_signature args
  run_optional sa_query args = hostapd_cli_cmd_sa_query args
  run_optional wps_pin args = hostapd_cli_cmd_wps_pin args
  run_optional wps_check_pin args = hostapd_cli_cmd_wps_check_pin args
  run_optional wps_pbc args = hostapd_cli_cmd_wps_pbc
  run_optional wps_cancel args = hostapd_cli_cmd_wps_cancel
  run_optional wps_nfc_tag_read args = hostapd_cli_cmd_wps_nfc_tag_read args
  run_optional wps_nfc_config_token args = hostapd_cli_cmd_wps_nfc_config_token args
  run_optional wps_nfc_token args = hostapd_cli_cmd_wps_nfc_token args
  run_optional nfc_get_handover_sel args = hostapd_cli_cmd_nfc_get_handover_sel args
  run_optional wps_ap_pin args = hostapd_cli_cmd_wps_ap_pin args
  run_optional wps_config args = hostapd_cli_cmd_wps_config args
  run_optional wps_get_status args = hostapd_cli_cmd_wps_get_status
  run_optional fst args = hostapd_cli_cmd_fst args
  run_optional dpp_qr_code args = hostapd_cli_cmd_dpp_qr_code env args
  run_optional dpp_bootstrap_gen args = hostapd_cli_cmd_dpp_bootstrap_gen env args
  run_optional dpp_bootstrap_remove args = hostapd_cli_cmd_dpp_bootstrap_remove env args
  run_optional dpp_bootstrap_get_uri args = hostapd_cli_cmd_dpp_bootstrap_get_uri env args
  run_optional dpp_bootstrap_info args = hostapd_cli_cmd_dpp_bootstrap_info env args
  run_optional dpp_auth_init args = hostapd_cli_cmd_dpp_auth_init env args
  run_optional dpp_listen args = hostapd_cli_cmd_dpp_listen env args
  run_optional dpp_stop_listen args = hostapd_cli_cmd_dpp_stop_listen env
  run_optional dpp_configurator_add args = hostapd_cli_cmd_dpp_configurator_add env args
  run_optional dpp_configurator_remove args = hostapd_cli_cmd_dpp_configurator_remove env args
  run_optional dpp_configurator_get_key args = hostapd_cli_cmd_dpp_configurator_get_key env args
  run_optional dpp_configurator_sign args = hostapd_cli_cmd_dpp_configurator_sign env args
  run_optional dpp_pkex_add args = hostapd_cli_cmd_dpp_pkex_add env args
  run_optional dpp_pkex_remove args = hostapd_cli_cmd_dpp_pkex_remove env args
