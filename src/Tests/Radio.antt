-- ===== src/Tests/Radio.antt =====
-- The Bluetooth functions on concrete inputs.
use transmitter_linux.Common.{
  codes, some, ◌≡◌, refl, true, [], ◌∷◌, ◌++◌, inr, take, drop, get_or, length, arith,
}
use transmitter_linux.Machine.{done, shell, World, bytes_read, read_error, eintr, eagain}
use transmitter_linux.Bluetooth.{send_cmd, generate_random_mac_address}
use transmitter_linux.Bluetooth.Buffers.{
  advertising_parameters_buf, extended_advertising_parameters_buf,
  extended_advertising_data_pack_buf,
}
use transmitter_linux.Bluetooth.Layout.{
  le_value, unused, parameters_bufs_lem, extended_advertising_data_pack_buf_lem,
}
use transmitter_linux.Bluetooth.Api.{
  init_bluetooth, close_bluetooth, send_bluetooth_message, send_bluetooth_message_extended_api,
  send_bluetooth_message_pack,
}
use transmitter_linux.Bluetooth.Trace.Acts.{Ends, Sends}
use transmitter_linux.Bluetooth.Trace.Init.{
  init_commands, init_bluetooth-Ends, stop_commands, message_commands,
}
use transmitter_linux.Bluetooth.Trace.Sending.{legacy_commands, pack_commands, bluetooth-Sends}
use transmitter_linux.Bluetooth.Keeping.{Leaves}
use transmitter_linux.Bluetooth.Events.{send_cmd-Leaves, send_cmd-IsFault, IsFault}
use transmitter_linux.Utils.Hex.{parse_hex}
use transmitter_linux.Utils.Text.{c_string}
use transmitter_linux.Bluetooth.Btmgmt.{btmgmt_data, send_bluetooth_message_btmgmt}
use transmitter_linux.Bluetooth.AddAdv.{send_bluetooth_message_btmgmt-parse}
use transmitter_linux.Features.{features_le, print_bitfield}
use transmitter_linux.Features.Mask.{named, print_bitfield_lem}
use transmitter_linux.Tests.Setup.{
  test_env, test_world, init_world, pack_config, reset_event, long_event, test_message, test_pack,
}

init_bluetooth-Ends_example :
    Ends
      (record init_world { device_descriptor = 3 })
      (init_commands test_env pack_config (generate_random_mac_address test_env))
      (init_bluetooth test_env pack_config init_world)
init_bluetooth-Ends_example = init_bluetooth-Ends test_env pack_config 3 init_world refl refl

bluetooth-Sends_example :
    Sends
      (send_bluetooth_message test_env test_message 7 pack_config)
      (legacy_commands test_env test_message 7 pack_config)
    × Sends
        (send_bluetooth_message_extended_api test_env test_message 7 pack_config)
        (message_commands test_env test_message 7 pack_config)
    × Sends
        (send_bluetooth_message_pack test_env 9 test_pack 7 pack_config)
        (pack_commands test_env 9 test_pack 7 pack_config)
    × Sends (close_bluetooth test_env pack_config) (stop_commands test_env pack_config)
bluetooth-Sends_example = bluetooth-Sends test_env test_message 7 9 test_pack pack_config

-- An interrupted read, one that finds nothing, and the event of a reset.
retried_world : World
retried_world = record test_world {
  reads = read_error eintr ∷ read_error eagain ∷ bytes_read reset_event ∷ [];
}

send_cmd-Leaves_example : Leaves [] (send_cmd test_env 3 3 3 [] retried_world)
unfolding retried_world
send_cmd-Leaves_example =
    send_cmd-Leaves test_env 3 3 3 [] (read_error eintr ∷ read_error eagain ∷ []) reset_event []
      retried_world refl refl tt (omega arith) (omega arith) (omega arith)

long_world : World
long_world = record test_world { reads = bytes_read long_event ∷ [] }

send_cmd-IsFault_example : IsFault test_env (send_cmd test_env 3 3 3 [] long_world)
unfolding long_world
send_cmd-IsFault_example =
    send_cmd-IsFault test_env 3 3 3 [] [] long_event [] long_world refl refl tt (omega arith) refl
      (inr (omega arith))

parameters_bufs_lem_example :
    let legacy = advertising_parameters_buf 100 in
    let buf = extended_advertising_parameters_buf 1 100 true in
    ((le_value (take 2 legacy) ≡ 160)
      × (le_value (take 2 (drop 2 legacy)) ≡ 160)
      × (drop 4 legacy ≡ 3 ∷ 1 ∷ 0 ∷ 0 ∷ 0 ∷ 0 ∷ 0 ∷ 0 ∷ 0 ∷ 7 ∷ 0 ∷ []))
    × ((get_or buf 0 0 ≡ 1)
        × (le_value (take 2 (drop 1 buf)) ≡ 0)
        × (le_value (take 3 (drop 3 buf)) ≡ 160)
        × (le_value (take 3 (drop 6 buf)) ≡ 160)
        × (get_or buf 20 0 ≡ 3)
        × (get_or buf 22 0 ≡ 3)
        × (length buf ≡ 25))
parameters_bufs_lem_example = parameters_bufs_lem 1 100 true

extended_advertising_data_pack_buf_lem_example :
    extended_advertising_data_pack_buf 9 1 2 test_pack 7
    ≡ (1 ∷ 3 ∷ 1 ∷ 59 ∷ 58 ∷ 0x16 ∷ 0xFA ∷ 0xFF ∷ 0x0D ∷ 7 ∷ [])
      ++ (take 53 test_pack ++ unused 9 2)
extended_advertising_data_pack_buf_lem_example =
    extended_advertising_data_pack_buf_lem 9 1 2 test_pack 7 (omega arith) (omega arith) refl

print_bitfield_lem_example :
    ((print_bitfield 0x200000021 features_le).1 ≡ named 0x200000021 features_le)
    × ((print_bitfield 0x200000021 features_le).0 ≡ 0x200000000)
print_bitfield_lem_example = print_bitfield_lem 0x200000021

send_bluetooth_message_btmgmt-parse_example :
    let text = c_string (btmgmt_data test_message 7) in
    (send_bluetooth_message_btmgmt test_message 7 test_world
      ≡ done tt (record test_world { out = shell (codes "btmgmt rm-adv 0") ∷ shell text ∷ [] }))
    × (take 18 text ≡ codes "btmgmt add-adv -d ")
    × (parse_hex (take 62 (drop 18 text))
        ≡ some (0x1E ∷ 0x16 ∷ 0xFA ∷ 0xFF ∷ 0x0D ∷ 7 ∷ test_message))
    × (drop 80 text ≡ codes " 1")
send_bluetooth_message_btmgmt-parse_example =
    send_bluetooth_message_btmgmt-parse test_message 7 test_world refl (omega arith) (omega arith)
