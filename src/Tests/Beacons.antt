-- ===== src/Tests/Beacons.antt =====
-- The Wi-Fi functions on concrete inputs.
use transmitter_linux.Common.{◌≡◌, refl, false, [], ◌∷◌, none, some, codes, take, drop, arith}
use transmitter_linux.Machine.{World, done, blocked, Tick, replied}
use transmitter_linux.Utils.Hex.{parse_hex}
use transmitter_linux.Beacon.{c_string, message_data, pack_data, send_beacon_message}
use transmitter_linux.Beacon.Elements.{message_data-parse, pack_data-parse}
use transmitter_linux.Beacon.Served.{send_beacon_message_idle, refused}
use transmitter_linux.Beacon.Answering.Progress.{Alive, Progress}
use transmitter_linux.Beacon.Answering.Messages.{send_beacon_message-Progress}
use transmitter_linux.Hostapd.Table.{hostapd_cli_commands, find_command}
use transmitter_linux.Hostapd.Search.{find_command_lem, choose, exact, last_match, matches}
use transmitter_linux.Hostapd.Control.{run_ticks}
use transmitter_linux.Hostapd.Commands.{words}
use transmitter_linux.Hostapd.Waiting.{run_ticks-semaphore}
use transmitter_linux.Tests.Setup.{
  test_env, test_other, test_world, idle_world, test_message, test_pack,
}

message_data-parse_example :
    let text = c_string (message_data test_message 7) in
    (take 2 text ≡ codes "dd")
    × (parse_hex (drop 2 text) ≡ some (0x1E ∷ 0xFA ∷ 0x0B ∷ 0xBC ∷ 0x0D ∷ 7 ∷ test_message))
message_data-parse_example = message_data-parse test_message 7 refl (omega arith) (omega arith)

pack_data-parse_example :
    let text = c_string (pack_data 9 2 test_pack 7) in
    (take 2 text ≡ codes "dd")
    × (parse_hex (drop 2 text) ≡ some (58 ∷ 0xFA ∷ 0x0B ∷ 0xBC ∷ 0x0D ∷ 7 ∷ take 53 test_pack))
pack_data-parse_example =
    pack_data-parse 9 2 test_pack 7 (omega arith) (omega arith) refl (omega arith) (omega arith)

send_beacon_message_idle_example :
    send_beacon_message test_env test_other test_message 7 idle_world
    ≡ blocked (record idle_world {
      schedule = [];
      out =
          refused test_env test_other
            (words
              (words (codes "SET") (codes "vendor_elements"))
              (c_string (message_data test_message 7)))
            [];
    })
send_beacon_message_idle_example =
    send_beacon_message_idle test_env test_other test_message 7 idle_world
      (refl, refl, ((refl, tt), (tt, tt)))

-- The word "set" begins no other command, and the word "s" begins several.
find_command_lem_example :
    find_command hostapd_cli_commands (codes "s") none 0
    ≡ choose
        (exact hostapd_cli_commands (codes "s"))
        (last_match hostapd_cli_commands (codes "s") none, matches hostapd_cli_commands (codes "s"))
find_command_lem_example = find_command_lem hostapd_cli_commands (codes "s")

answered_tick : Tick
answered_tick = record { reply = replied []; reopens = false }

run_ticks-semaphore_example :
    (run_ticks (answered_tick ∷ answered_tick ∷ []) test_world).semaphore ≡ 2
unfolding answered_tick
run_ticks-semaphore_example =
    run_ticks-semaphore (answered_tick ∷ answered_tick ∷ []) test_world refl refl
      (([], refl), (([], refl), tt))

-- A connection on which the other thread pings once before the first request.
wifi_world : World
wifi_world = record test_world { schedule = (answered_tick ∷ []) ∷ [] }

wifi_world-Alive : Alive wifi_world
unfolding wifi_world answered_tick
wifi_world-Alive = record { connected = refl; going = refl; answered = ((([], refl), tt), tt) }

send_beacon_message-Progress_example :
    (v : World) × (send_beacon_message test_env test_other test_message 7 wifi_world ≡ done tt v)
    × Progress
        (words (codes "SET vendor_elements") (c_string (message_data test_message 7))
          ∷ codes "UPDATE_BEACON"
          ∷ [])
        wifi_world
        v
send_beacon_message-Progress_example =
    send_beacon_message-Progress test_env test_other test_message 7 wifi_world wifi_world-Alive
