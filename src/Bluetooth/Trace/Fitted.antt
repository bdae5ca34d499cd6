-- ===== src/Bluetooth/Trace/Fitted.antt =====
-- Which of the commands of bluetooth.c fit the types of `hci_send_cmd`: all of them.
use transmitter_linux.Common.{ℕ, ◌<◌, ◌≤◌, ◌≡◌, Bool, true, false, some, List, [], ◌∷◌, ltb, arith}
use transmitter_linux.Machine.{World, M, Env}
use transmitter_linux.Utils.{Config}
use transmitter_linux.Bluetooth.Buffers.{extended_advertising_data_buf}
use transmitter_linux.Bluetooth.Hci.{generate_random_mac_address}
use transmitter_linux.Bluetooth.Api.{
  init_bluetooth, send_bluetooth_message, send_bluetooth_message_extended_api,
  send_bluetooth_message_pack, close_bluetooth,
}
use transmitter_linux.Bluetooth.Fitting.{
  IsBytes, random_address_buf-Buffer, advertising_parameters_buf-Buffer,
  extended_advertising_parameters_buf-Buffer, advertising_data_buf-Buffer,
  extended_advertising_data_buf-Buffer, advertising_set_random_address_buf-Buffer,
  extended_advertising_data_pack_buf-Buffer, extended_advertising_enable_buf-Buffer,
  generate_random_mac_address-IsBytes,
}
use transmitter_linux.Bluetooth.Trace.Acts.{HciCommand, Sends}
use transmitter_linux.Bluetooth.Trace.Init.{
  le, reset, opens, stop_commands, btl_commands, extended_commands, enable_extended, init_commands,
  init_bluetooth-Ends, close_bluetooth-Sends, send_bluetooth_message_extended_api-Sends,
}
use transmitter_linux.Bluetooth.Trace.Sending.{
  pack_command, send_bluetooth_message-Sends, send_bluetooth_message_pack-Sends,
}
use transmitter_linux.Bluetooth.Trace.Typed.{
  AllFit, no_command, fitting, one, AllFit-append, AllFit-if, Fits-Buffer, Fitted, FittedWorld,
  Ends-Fitted,
}

module _ (env : Env) (config : Config) (bt4 : config.handle_bt4 < 256)
    (bt5 : config.handle_bt5 < 256) where
  stop_commands-AllFit : AllFit (stop_commands env config)
  stop_commands-AllFit =
      fitting _ (record { bytes = ground arith; few = omega arith })
        (fitting _ (record { bytes = ground arith; few = omega arith })
          (fitting _ (record { bytes = ground arith; few = omega arith })
            (one _ (record { bytes = ground arith; few = omega arith }))))

  module _ (mac : List ℕ) (mac_bytes : IsBytes mac) where
    btl_commands-AllFit : AllFit (btl_commands env mac)
    btl_commands-AllFit =
        fitting _ (record { bytes = tt; few = omega arith })
          (fitting _ (Fits-Buffer _ _ _ (advertising_parameters_buf-Buffer 100) (omega arith))
            (one _ (Fits-Buffer _ _ _ (random_address_buf-Buffer mac mac_bytes) (omega arith))))

    extended_commands-AllFit :
        (handle interval_ms : ℕ) (long_range : Bool)
        → handle < 256
        → AllFit (extended_commands env handle interval_ms long_range mac)
    extended_commands-AllFit handle interval_ms long_range few =
        fitting _ (record { bytes = tt; few = omega arith })
          (fitting _
            (Fits-Buffer _ _ _
              (extended_advertising_parameters_buf-Buffer handle interval_ms long_range few)
              (omega arith))
            (one _ (
              Fits-Buffer _ _ _ (advertising_set_random_address_buf-Buffer handle mac few mac_bytes)
                (omega arith))))

    enable_extended-AllFit : AllFit (enable_extended env config)
    enable_extended-AllFit =
        one _
          (Fits-Buffer _ _ _ (extended_advertising_enable_buf-Buffer config bt4 bt5) (omega arith))

    init_commands-AllFit : AllFit (init_commands env config mac)
    init_commands-AllFit =
        AllFit-append (one (reset env) (record { bytes = tt; few = omega arith })) (
          AllFit-append stop_commands-AllFit (
            AllFit-append
              (one (le env env.ocf_le_read_local_supported_features [])
                (record { bytes = tt; few = omega arith }))
              (AllFit-append (AllFit-if config.use_btl btl_commands-AllFit) (
                AllFit-append
                  (AllFit-if config.use_bt4
                    (extended_commands-AllFit config.handle_bt4 300 false bt4))
                  (AllFit-append
                    (AllFit-if config.use_bt5
                      (extended_commands-AllFit config.handle_bt5 950 true bt5))
                    (AllFit-append
                      (AllFit-if config.use_btl (
                        one (le env env.ocf_le_set_advertise_enable (1 ∷ []))
                          (record { bytes = ground arith; few = omega arith })))
                      (AllFit-append (AllFit-if config.use_bt4 enable_extended-AllFit)
                        (AllFit-if config.use_bt5 enable_extended-AllFit))))))))

  init_bluetooth-Fitted :
      (dd : ℕ) (w : World)
      → opens env ≡ some dd
      → env.hci_filter_set ≡ true
      → Fitted w.out
      → FittedWorld (init_bluetooth env config w)
  init_bluetooth-Fitted dd w opened filtered h =
      let mac = generate_random_mac_address env in
      Ends-Fitted (record w { device_descriptor = dd }) (init_commands env config mac)
        (init_bluetooth env config w) (init_bluetooth-Ends env config dd w opened filtered)
        (init_commands-AllFit mac (generate_random_mac_address-IsBytes env)) h

  Sends-Fitted :
      {m : M (Unit {0})} {cs : List HciCommand} (w : World)
      → Sends m cs
      → AllFit cs
      → Fitted w.out
      → FittedWorld (m w)
  Sends-Fitted {m} {cs} w s k h = Ends-Fitted w cs (m w) (s.ends w) k h

  close_bluetooth-Fitted : (w : World) → Fitted w.out → FittedWorld (close_bluetooth env config w)
  close_bluetooth-Fitted w h =
      Sends-Fitted w (close_bluetooth-Sends env config) stop_commands-AllFit h

  module _ (counter : ℕ) (byte : counter < 256) where
    module _ (encoded : List ℕ) (encoded_bytes : IsBytes encoded) where
      send_bluetooth_message-Fitted :
          (w : World)
          → Fitted w.out
          → FittedWorld (send_bluetooth_message env encoded counter config w)
      send_bluetooth_message-Fitted w h =
          Sends-Fitted w (send_bluetooth_message-Sends env encoded counter config)
            (AllFit-if config.use_btl (
              one _ (
                Fits-Buffer _ _ _ (advertising_data_buf-Buffer encoded counter encoded_bytes byte)
                  (omega arith))))
            h

      extended_data-AllFit :
          (handle : ℕ)
          → handle < 256
          → AllFit (le env 0x37 (extended_advertising_data_buf handle encoded counter) ∷ [])
      extended_data-AllFit handle few = one _ (
          Fits-Buffer _ _ _
            (extended_advertising_data_buf-Buffer handle encoded counter few encoded_bytes byte)
            (omega arith))

      send_bluetooth_message_extended_api-Fitted :
          (w : World)
          → Fitted w.out
          → FittedWorld (send_bluetooth_message_extended_api env encoded counter config w)
      send_bluetooth_message_extended_api-Fitted w h =
          Sends-Fitted w (send_bluetooth_message_extended_api-Sends env encoded counter config)
            (AllFit-append (AllFit-if config.use_bt4 (extended_data-AllFit config.handle_bt4 bt4))
              (AllFit-if config.use_bt5 (extended_data-AllFit config.handle_bt5 bt5)))
            h

    module _ (amount : ℕ) (pack_bytes : List ℕ) (pack_is : IsBytes pack_bytes)
        (most : env.pack_max_messages ≤ 9) where
      pack-AllFit :
          (large : Bool) → AllFit (pack_command env large amount pack_bytes counter config)
      pack-AllFit true = no_command
      pack-AllFit false = one _ (
          Fits-Buffer _ _ _
            (extended_advertising_data_pack_buf-Buffer env.pack_max_messages config.handle_bt5
              amount pack_bytes counter bt5 pack_is byte)
            (omega arith))

      send_bluetooth_message_pack-Fitted :
          (w : World)
          → Fitted w.out
          → FittedWorld (send_bluetooth_message_pack env amount pack_bytes counter config w)
      send_bluetooth_message_pack-Fitted w h =
          Sends-Fitted w (send_bluetooth_message_pack-Sends env amount pack_bytes counter config)
            (AllFit-if config.use_bt5 (pack-AllFit (ltb env.pack_max_messages amount))) h

-- The types of `hci_send_cmd`: a device that opens and takes its filter, handles and a counter that
-- are bytes, messages and packs made of bytes, and at most nine messages in a pack. Then every
-- command that the functions of bluetooth.h send, however they end, has parameters that are bytes,
-- and fewer than 256 of them, if this held of the commands before.
pub hci_send_cmd-Fitted :
    (env : Env) (config : Config) (dd counter amount : ℕ) (encoded pack_bytes : List ℕ) (w : World)
    → opens env ≡ some dd
    → env.hci_filter_set ≡ true
    → config.handle_bt4 < 256
    → config.handle_bt5 < 256
    → counter < 256
    → IsBytes encoded
    → IsBytes pack_bytes
    → env.pack_max_messages ≤ 9
    → Fitted w.out
    → FittedWorld (init_bluetooth env config w)
      × FittedWorld (send_bluetooth_message env encoded counter config w)
      × FittedWorld (send_bluetooth_message_extended_api env encoded counter config w)
      × FittedWorld (send_bluetooth_message_pack env amount pack_bytes counter config w)
      × FittedWorld (close_bluetooth env config w)
hci_send_cmd-Fitted env config dd counter amount encoded pack_bytes w opened filtered bt4 bt5 byte
      message pack most h =
    (
      init_bluetooth-Fitted env config bt4 bt5 dd w opened filtered h,
      send_bluetooth_message-Fitted env config bt4 bt5 counter byte encoded message w h,
      send_bluetooth_message_extended_api-Fitted env config bt4 bt5 counter byte encoded message w
          h,
      send_bluetooth_message_pack-Fitted env config bt4 bt5 counter byte amount pack_bytes pack most
          w h,
      close_bluetooth-Fitted env config bt4 bt5 w h,
    )
