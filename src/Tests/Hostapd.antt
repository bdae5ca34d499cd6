-- ===== src/Tests/Hostapd.antt =====
-- The handlers of ap_interface.c on concrete inputs.
use transmitter_linux.Common.{
  ℕ, ◌≡◌, refl, true, false, none, some, List, [], ◌∷◌, ◌++◌, ◌<◌, codes, length, leb,
  if◌then◌else◌, arith,
}
use transmitter_linux.Machine.{done, Env, Reply, replied, ctrl_request}
use transmitter_linux.Hostapd.Table.{chan_switch}
use transmitter_linux.Hostapd.Commands.{
  same_text, append_args, run_handler, Platform, hostapd_cli_cmd_list_sta, update_stations,
  keep_stations,
}
use transmitter_linux.Hostapd.Appending.{append_args_lem, fitted, spaced}
use transmitter_linux.Hostapd.Connection.{
  Connection, Library, hostapd_cli_reconnect, ping_connection, end_thread,
}
use transmitter_linux.Hostapd.Protocol.{Follows, idle, status}
use transmitter_linux.Hostapd.Reconnecting.{initial, started, reconnected, pinged, Reaches-Follows}
use transmitter_linux.Hostapd.Help.{starts}
use transmitter_linux.Hostapd.Events.{EventNames, cli_event, add_station, del_station}
use transmitter_linux.Hostapd.Noticing.{Names, cli_event_lem}
use transmitter_linux.Hostapd.Handling.Requests.{HandledBy, WriteCmdFits}
use transmitter_linux.Hostapd.Handling.Handlers.{run_handler-HandledBy}
use transmitter_linux.Hostapd.Walking.{
  list_sta_and_update_stations_lem, visits, log, line_of, Serves,
}
use transmitter_linux.Tests.Setup.{test_env, test_other, test_world, join}

fits-if :
    (size : ℕ) (whole text : List ℕ)
    → (if leb size (length whole) then none else some whole) ≡ some text
    → length text < size
fits-if size whole text e = ground arith

test_env-WriteCmdFits : WriteCmdFits test_env
test_env-WriteCmdFits size cmd args text e = fits-if size (join cmd args) text e

append_args_lem_example :
    append_args 20 (codes "FST-MANAGER") (codes "attach" ∷ codes "wlan0" ∷ [])
    ≡ fitted 20 (codes "FST-MANAGER" ++ spaced (codes "attach" ∷ codes "wlan0" ∷ []))
append_args_lem_example =
    append_args_lem 20 (codes "FST-MANAGER") (codes "attach" ∷ codes "wlan0" ∷ []) (omega arith)

run_handler-HandledBy_example : HandledBy test_world (
    run_handler test_env test_other chan_switch
      (codes "5" ∷ codes "2412" ∷ codes "ht" ∷ [])
      test_world)
run_handler-HandledBy_example =
    run_handler-HandledBy test_env test_other chan_switch
      (codes "5" ∷ codes "2412" ∷ codes "ht" ∷ []) test_world tt test_env-WriteCmdFits

abbrev test_platform : Platform
test_platform = record { char_signed = true; ssid_max_len = 32; allocates = λ size. true }

-- A hostapd with two stations, and an empty reply behind the last.
abbrev pub station_reply : List ℕ → Reply
station_reply cmd =
    if same_text cmd (codes "STA-FIRST")
    then replied (codes "02:00:00:00:00:01" ++ (10 ∷ codes "flags=[AUTH]"))
    else if same_text cmd (codes "STA-NEXT 02:00:00:00:00:01")
    then replied (codes "02:00:00:00:00:0a" ++ (10 ∷ []))
    else if same_text cmd (codes "STA-NEXT 02:00:00:00:00:0a")
    then replied []
    else replied (codes "FAIL" ++ (10 ∷ []))

abbrev pub station_env : Env
station_env = record test_env { wpa_ctrl_request = λ out cmd. station_reply cmd }

abbrev pub stations : List (List ℕ)
stations = codes "02:00:00:00:00:01" ∷ codes "02:00:00:00:00:0a" ∷ [] ∷ []

pub stations-Serves : Serves station_env (codes "STA-FIRST") stations
unfolding same_text
stations-Serves = (
  ground arith,
  λ out. (10 ∷ codes "flags=[AUTH]", refl, refl),
  (ground arith, λ out. (10 ∷ [], refl, refl), (ground arith, λ out. ([], refl, tt), λ out. refl)),
)

list_sta_and_update_stations_lem_example :
    let first = ctrl_request (codes "STA-FIRST") in
    (hostapd_cli_cmd_list_sta station_env 3 test_world
      ≡ done true (log test_world (first ∷ visits station_env line_of stations)))
    × (update_stations station_env 3 test_world
        ≡ done
            (keep_stations stations)
            (log test_world (first ∷ visits station_env (λ a. []) stations)))
list_sta_and_update_stations_lem_example =
    list_sta_and_update_stations_lem station_env stations 3 test_world (omega arith) refl
      stations-Serves

-- Libraries whose every call succeeds.
abbrev test_library : Library
test_library = record {
  opens = λ calls cfile. true;
  attaches = λ calls. true;
  registers = λ calls. true;
  allocates = λ calls size. true;
}

-- Connected at the start, and again after a ping that got no answer.
abbrev reconnected_connection : Connection
reconnected_connection =
    ping_connection test_library false
      (hostapd_cli_reconnect test_library (some (codes "wlan0")) (initial true none)).1

Reaches-Follows_example :
    Follows reconnected_connection.calls (status reconnected_connection)
    × ((hostapd_cli_reconnect test_library (some (codes "wlan1")) reconnected_connection).0
        ≡ (hostapd_cli_reconnect test_library
            (some (codes "wlan1"))
            reconnected_connection).1.ctrl_conn)
    × Follows (end_thread test_library reconnected_connection).calls idle
Reaches-Follows_example =
    Reaches-Follows test_library reconnected_connection (some (codes "wlan1"))
      (pinged false (reconnected (some (codes "wlan0")) (started true none)))

-- The names as hostapd documents them.
abbrev pub event_names : EventNames
event_names = record {
  ap_sta_connected = codes "AP-STA-CONNECTED ";
  ap_sta_disconnected = codes "AP-STA-DISCONNECTED ";
}

event_names-Names : Names event_names (codes "AP-STA-CONNECTED") (codes "AP-STA-DISCONNECTED")
unfolding starts
event_names-Names = record {
  connected_word = ground arith;
  disconnected_word = ground arith;
  connected_blank = refl;
  disconnected_blank = refl;
  apart = λ rest. refl;
}

cli_event_lem_example :
    (cli_event event_names (codes "<3>AP-STA-CONNECTED 02:00:00:00:00:01")
      ≡ add_station (codes "02:00:00:00:00:01"))
    × (cli_event event_names (codes "<3>AP-STA-DISCONNECTED 02:00:00:00:00:01")
        ≡ del_station (codes "02:00:00:00:00:01"))
cli_event_lem_example =
    cli_event_lem event_names (codes "AP-STA-CONNECTED") (codes "AP-STA-DISCONNECTED") (codes "3")
      (codes "02:00:00:00:00:01") event_names-Names (ground arith)
