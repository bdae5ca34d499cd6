-- ===== src/Bluetooth/Trace/Sending.antt =====
-- Which commands each function of bluetooth.h sends after `init_bluetooth`.
use transmitter_linux.Common.{ℕ, Bool, true, false, List, [], ◌∷◌, ltb, if◌then◌else◌}
use transmitter_linux.Machine.{undefined, Env}
use transmitter_linux.Utils.{Config}
use transmitter_linux.Bluetooth.Buffers.{advertising_data_buf, extended_advertising_data_pack_buf}
use transmitter_linux.Bluetooth.Hci.{
  send_cmd, hci_le_set_advertising_data, hci_le_set_extended_advertising_data_pack,
}
use transmitter_linux.Bluetooth.Api.{
  send_bluetooth_message, send_bluetooth_message_extended_api, send_bluetooth_message_pack,
  close_bluetooth,
}
use transmitter_linux.Bluetooth.Trace.Acts.{HciCommand, Sends, Sends-when, Sends-undefined}
use transmitter_linux.Bluetooth.Trace.Single.{send_cmd-Sends}
use transmitter_linux.Bluetooth.Trace.Init.{
  le, stop_commands, message_commands, close_bluetooth-Sends,
  send_bluetooth_message_extended_api-Sends,
}

module _ (env : Env) where
  abbrev pub legacy_commands : List ℕ → ℕ → Config → List HciCommand
  legacy_commands encoded counter config =
      if config.use_btl
      then le env env.ocf_le_set_advertising_data (advertising_data_buf encoded counter) ∷ []
      else []

  -- A pack of more messages than a pack can have is not sent.
  abbrev pub pack_command : Bool → ℕ → List ℕ → ℕ → Config → List HciCommand
  pack_command large amount pack_bytes counter config =
      if large
      then []
      else le env 0x37 (
          extended_advertising_data_pack_buf env.pack_max_messages config.handle_bt5 amount
            pack_bytes counter)
        ∷ []

  abbrev pub pack_commands : ℕ → List ℕ → ℕ → Config → List HciCommand
  pack_commands amount pack_bytes counter config =
      if config.use_bt5
      then pack_command (ltb env.pack_max_messages amount) amount pack_bytes counter config
      else []

  pub send_bluetooth_message-Sends :
      (encoded : List ℕ) (counter : ℕ) (config : Config)
      → Sends
          (send_bluetooth_message env encoded counter config)
          (legacy_commands encoded counter config)
  unfolding send_bluetooth_message hci_le_set_advertising_data
  send_bluetooth_message-Sends encoded counter config = Sends-when config.use_btl (
      send_cmd-Sends env env.ogf_le_ctl env.ocf_le_set_advertising_data
        (advertising_data_buf encoded counter))

  guarded-pack :
      (large : Bool) (amount : ℕ) (pack_bytes : List ℕ) (counter : ℕ) (config : Config)
      → Sends
          (λ w.
            (if large
                then undefined
                else send_cmd env w.device_descriptor env.ogf_le_ctl 0x37 (
                    extended_advertising_data_pack_buf env.pack_max_messages config.handle_bt5
                      amount pack_bytes counter))
              w)
          (pack_command large amount pack_bytes counter config)
  guarded-pack true amount pack_bytes counter config = Sends-undefined
  guarded-pack false amount pack_bytes counter config = send_cmd-Sends env env.ogf_le_ctl 0x37 (
      extended_advertising_data_pack_buf env.pack_max_messages config.handle_bt5 amount pack_bytes
        counter)

  pub send_bluetooth_message_pack-Sends :
      (amount : ℕ) (pack_bytes : List ℕ) (counter : ℕ) (config : Config)
      → Sends
          (send_bluetooth_message_pack env amount pack_bytes counter config)
          (pack_commands amount pack_bytes counter config)
  unfolding send_bluetooth_message_pack hci_le_set_extended_advertising_data_pack
  send_bluetooth_message_pack-Sends amount pack_bytes counter config =
      Sends-when config.use_bt5
        (guarded-pack (ltb env.pack_max_messages amount) amount pack_bytes counter config)

  -- Whatever the controller answers, each of these calls sends exactly the commands listed if it
  -- returns, in order, and a first part of them if it does not: a message over legacy advertising
  -- one data command if this is used; a message over the extended kinds one for the set of
  -- Bluetooth 4 and then one for that of Bluetooth 5, each if it is used; a pack one for the set of
  -- Bluetooth 5 if it is used, and none at all for more messages than a pack can have; and
  -- `close_bluetooth` the four commands that stop all advertising and remove both sets.
  pub bluetooth-Sends :
      (encoded : List ℕ) (counter amount : ℕ) (pack_bytes : List ℕ) (config : Config)
      → Sends
          (send_bluetooth_message env encoded counter config)
          (legacy_commands encoded counter config)
        × Sends
            (send_bluetooth_message_extended_api env encoded counter config)
            (message_commands env encoded counter config)
        × Sends
            (send_bluetooth_message_pack env amount pack_bytes counter config)
            (pack_commands amount pack_bytes counter config)
        × Sends (close_bluetooth env config) (stop_commands env config)
  bluetooth-Sends encoded counter amount pack_bytes config = (
    send_bluetooth_message-Sends encoded counter config,
    send_bluetooth_message_extended_api-Sends env encoded counter config,
    send_bluetooth_message_pack-Sends amount pack_bytes counter config,
    close_bluetooth-Sends env config,
  )
