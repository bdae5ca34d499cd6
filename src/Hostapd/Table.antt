-- ===== src/Hostapd/Table.antt =====
-- `hostapd_cli_commands`, as the build makes it (CMakeLists.txt defines CONFIG_CTRL_IFACE and
-- CONFIG_CTRL_IFACE_UNIX, so the rows of the other options are not there), and the search of
-- `wpa_request` in it.
use transmitter_linux.Common.{
  ℕ, suc, ◌+◌, Bool, true, false, ◌&&◌, Option, none, some, List, [], ◌∷◌, leb, ◌==◌, if◌then◌else◌,
  codes,
}

-- A constructor for each `hostapd_cli_cmd_…` function of the table.
pub data Handler : Type 0 where
  ping mib relog status sta all_sta list_sta new_sta deauthenticate disassociate : Handler
  disassoc_imminent ess_disassoc bss_tm_req get_config help interface raw level license : Handler
  quit set_handler get set_qos_map_set send_qos_map_conf chan_switch hs20_wnm_notif : Handler
  hs20_deauth_req vendor enable reload disable update_beacon erp_flush log_level pmksa : Handler
  pmksa_flush set_neighbor remove_neighbor req_lci req_range driver_flags accept_macacl : Handler
  deny_macacl poll_sta req_beacon reload_wpa_psk : Handler

-- A constructor for each `hostapd_complete_…` function of the table.
pub data Completion : Type 0 where
  complete_stations complete_help complete_interface complete_set complete_get : Completion

pub record Command : Type 0 where
  pub cmd : List ℕ
  pub handler : Handler
  pub completion : Option Completion
  pub usage : Option (List ℕ)

command : List ℕ → Handler → Option Completion → List ℕ → Command
command c h f text = record { cmd = c; handler = h; completion = f; usage = some text }

-- The end marker is the end of the list.
unfoldable pub hostapd_cli_commands : List Command
unfolding command
hostapd_cli_commands =
    command (codes "ping") ping none (codes "= pings hostapd")
    ∷ command (codes "mib") mib none (codes "= get MIB variables (dot1x, dot11, radius)")
    ∷ command (codes "relog") relog none (codes "= reload/truncate debug log output file")
    ∷ command (codes "status") status none (codes "= show interface status info")
    ∷ command (codes "sta") sta (some complete_stations)
        (codes "<addr> = get MIB variables for one station")
    ∷ command (codes "all_sta") all_sta none (codes "= get MIB variables for all stations")
    ∷ command (codes "list_sta") list_sta none (codes "= list all stations")
    ∷ command (codes "new_sta") new_sta none (codes "<addr> = add a new station")
    ∷ command (codes "deauthenticate") deauthenticate (some complete_stations)
        (codes "<addr> = deauthenticate a station")
    ∷ command (codes "disassociate") disassociate (some complete_stations)
        (codes "<addr> = disassociate a station")
    ∷ command (codes "disassoc_imminent") disassoc_imminent none
        (codes "= send Disassociation Imminent notification")
    ∷ command (codes "ess_disassoc") ess_disassoc none
        (codes "= send ESS Dissassociation Imminent notification")
    ∷ command (codes "bss_tm_req") bss_tm_req none
        (codes "= send BSS Transition Management Request")
    ∷ command (codes "get_config") get_config none (codes "= show current configuration")
    ∷ command (codes "help") help (some complete_help) (codes "= show this usage help")
    ∷ command (codes "interface") interface (some complete_interface)
        (codes "[ifname] = show interfaces/select interface")
    ∷ command (codes "raw") raw none (codes "<params..> = send unprocessed command")
    ∷ command (codes "level") level none (codes "<debug level> = change debug level")
    ∷ command (codes "license") license none (codes "= show full hostapd_cli license")
    ∷ command (codes "quit") quit none (codes "= exit hostapd_cli")
    ∷ command (codes "set") set_handler (some complete_set)
        (codes "<name> <value> = set runtime variables")
    ∷ command (codes "get") get (some complete_get) (codes "<name> = get runtime info")
    ∷ command (codes "set_qos_map_set") set_qos_map_set none
        (codes "<arg,arg,...> = set QoS Map set element")
    ∷ command (codes "send_qos_map_conf") send_qos_map_conf (some complete_stations)
        (codes "<addr> = send QoS Map Configure frame")
    ∷ command (codes "chan_switch") chan_switch none (
        codes
          "<cs_count> <freq> [sec_channel_offset=] [center_freq1=]\n  [center_freq2=] [bandwidth=] [blocktx] [ht|vht]\n  = initiate channel switch announcement")
    ∷ command (codes "hs20_wnm_notif") hs20_wnm_notif none
        (codes "<addr> <url>\n  = send WNM-Notification Subscription Remediation Request")
    ∷ command (codes "hs20_deauth_req") hs20_deauth_req none (
        codes
          "<addr> <code (0/1)> <Re-auth-Delay(sec)> [url]\n  = send WNM-Notification imminent deauthentication indication")
    ∷ command (codes "vendor") vendor none (
        codes "<vendor id> <sub command id> [<hex formatted data>]\n  = send vendor driver command")
    ∷ command (codes "enable") enable none (codes "= enable hostapd on current interface")
    ∷ command (codes "reload") reload none (codes "= reload configuration for current interface")
    ∷ command (codes "disable") disable none (codes "= disable hostapd on current interface")
    ∷ command (codes "update_beacon") update_beacon none (codes "= update Beacon frame contents\n")
    ∷ command (codes "erp_flush") erp_flush none (codes "= drop all ERP keys")
    ∷ command (codes "log_level") log_level none (codes "[level] = show/change log verbosity level")
    ∷ command (codes "pmksa") pmksa none (codes " = show PMKSA cache entries")
    ∷ command (codes "pmksa_flush") pmksa_flush none (codes " = flush PMKSA cache")
    ∷ command (codes "set_neighbor") set_neighbor none
        (codes "<addr> <ssid=> <nr=> [lci=] [civic=] [stat]\n  = add AP to neighbor database")
    ∷ command (codes "remove_neighbor") remove_neighbor none
        (codes "<addr> <ssid=> = remove AP from neighbor database")
    ∷ command (codes "req_lci") req_lci (some complete_stations)
        (codes "<addr> = send LCI request to a station")
    ∷ command (codes "req_range") req_range none (codes " = send FTM range request")
    ∷ command (codes "driver_flags") driver_flags none (codes " = show supported driver flags")
    ∷ command (codes "accept_acl") accept_macacl none
        (codes "=Add/Delete/Show/Clear accept MAC ACL")
    ∷ command (codes "deny_acl") deny_macacl none (codes "=Add/Delete/Show/Clear deny MAC ACL")
    ∷ command (codes "poll_sta") poll_sta (some complete_stations)
        (codes "<addr> = poll a STA to check connectivity with a QoS null frame")
    ∷ command (codes "req_beacon") req_beacon none (
        codes
          "<addr> [req_mode=] <measurement request hexdump>  = send a Beacon report request to a station")
    ∷ command (codes "reload_wpa_psk") reload_wpa_psk none (codes "= reload wpa_psk_file only")
    ∷ []

-- `tolower` in the C locale
abbrev pub to_lower : ℕ → ℕ
to_lower c = if leb b'A' c && leb c b'Z' then c + 32 else c

-- `strncasecmp(name, arg, strlen(arg)) == 0`
unfoldable pub begins_with : List ℕ → List ℕ → Bool
begins_with name [] = true
begins_with [] (a ∷ arg) = false
begins_with (c ∷ name) (a ∷ arg) = to_lower c == to_lower a && begins_with name arg

-- `os_strcasecmp(name, arg) == 0`
unfoldable pub same_word : List ℕ → List ℕ → Bool
same_word [] [] = true
same_word [] (a ∷ arg) = false
same_word (c ∷ name) [] = false
same_word (c ∷ name) (a ∷ arg) = to_lower c == to_lower a && same_word name arg

-- The first loop of `wpa_request`: the row that matched last, and the count of matches.
unfoldable pub find_command : List Command → List ℕ → Option Handler → ℕ → Option Handler × ℕ
find_command [] arg match count = (match, count)
find_command (r ∷ rows) arg match count = elim (begins_with r.cmd arg) [
  | false ↦ find_command rows arg match count
  | true ↦ elim (same_word r.cmd arg) [
    | true ↦ (some r.handler, 1)
    | false ↦ find_command rows arg (some r.handler) (suc count)
  ]
]

-- The second loop: the commands that an ambiguous word may stand for.
unfoldable pub possible_commands : List Command → List ℕ → List (List ℕ)
possible_commands [] arg = []
possible_commands (r ∷ rows) arg =
    if begins_with r.cmd arg then r.cmd ∷ possible_commands rows arg else possible_commands rows arg
