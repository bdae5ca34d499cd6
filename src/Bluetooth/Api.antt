-- ===== src/Bluetooth/Api.antt =====
-- The functions of bluetooth.h, on the device that `init_bluetooth` opened.
use transmitter_linux.Common.{ℕ, Bool, true, false, some, List}
use transmitter_linux.Machine.{done, M, ◌>>=◌, ◌>>◌, when, emit, Env, hci_closed}
use transmitter_linux.Utils.{Config}
use transmitter_linux.Bluetooth.Hci.{
  open_hci_device, generate_random_mac_address, hci_reset, hci_le_read_local_supported_features,
  hci_le_set_random_address, hci_le_set_advertising_parameters, hci_le_set_advertising_data,
  hci_le_set_advertising_disable, hci_le_set_advertising_enable,
  hci_le_set_advertising_set_random_address, hci_le_set_extended_advertising_parameters,
  hci_le_set_extended_advertising_data, hci_le_set_extended_advertising_data_pack,
  hci_le_set_extended_advertising_disable, hci_le_set_extended_advertising_enable,
  hci_le_remove_advertising_set,
}

-- Reading and writing the global `device_descriptor`.
abbrev with_device : (ℕ → M (Unit {0})) → M (Unit {0})
with_device f w = f w.device_descriptor w

abbrev set_device : ℕ → M (Unit {0})
set_device dd w = done tt (record w { device_descriptor = dd })

module _ (env : Env) where
  unfoldable pub stop_transmit : Config → M (Unit {0})
  stop_transmit config = do
    with_device (hci_le_set_advertising_disable env)
    with_device (hci_le_set_extended_advertising_disable env)
    with_device λ dd. hci_le_remove_advertising_set env dd config.handle_bt4
    with_device λ dd. hci_le_remove_advertising_set env dd config.handle_bt5

  -- The blocks of `init_bluetooth`, one for each kind of advertising.
  unfoldable pub set_up_btl : List ℕ → M (Unit {0})
  set_up_btl mac = do
    with_device (hci_reset env)
    with_device λ dd. hci_le_set_advertising_parameters env dd 100
    with_device λ dd. hci_le_set_random_address env dd (some mac)

  unfoldable pub set_up_extended : ℕ → ℕ → Bool → List ℕ → M (Unit {0})
  set_up_extended handle interval_ms long_range mac = do
    with_device (hci_reset env)
    with_device
        λ dd. hci_le_set_extended_advertising_parameters env dd handle interval_ms long_range
    with_device λ dd. hci_le_set_advertising_set_random_address env dd handle (some mac)

  unfoldable pub init_bluetooth : Config → M (Unit {0})
  init_bluetooth config = do
    let mac = generate_random_mac_address env
    dd ← open_hci_device env
    set_device dd
    with_device (hci_reset env)
    stop_transmit config
    with_device (hci_le_read_local_supported_features env)
    when config.use_btl (set_up_btl mac)
    when config.use_bt4 (set_up_extended config.handle_bt4 300 false mac)
    when config.use_bt5 (set_up_extended config.handle_bt5 950 true mac)
    when config.use_btl (with_device (hci_le_set_advertising_enable env))
    when config.use_bt4 (with_device (λ dd. hci_le_set_extended_advertising_enable env dd config))
    when config.use_bt5 (with_device (λ dd. hci_le_set_extended_advertising_enable env dd config))

  unfoldable pub send_bluetooth_message : List ℕ → ℕ → Config → M (Unit {0})
  send_bluetooth_message encoded msg_counter config =
      when config.use_btl
        (with_device (λ dd. hci_le_set_advertising_data env dd encoded msg_counter))

  unfoldable pub send_bluetooth_message_extended_api : List ℕ → ℕ → Config → M (Unit {0})
  send_bluetooth_message_extended_api encoded msg_counter config = do
    when config.use_bt4 (
        with_device
          (λ dd. hci_le_set_extended_advertising_data env dd config.handle_bt4 encoded msg_counter))
    when config.use_bt5 (
        with_device
          (λ dd. hci_le_set_extended_advertising_data env dd config.handle_bt5 encoded msg_counter))

  unfoldable pub send_bluetooth_message_pack : ℕ → List ℕ → ℕ → Config → M (Unit {0})
  send_bluetooth_message_pack amount pack_bytes msg_counter config = when config.use_bt5 (
      with_device (λ dd.
        hci_le_set_extended_advertising_data_pack env dd config.handle_bt5 amount pack_bytes
          msg_counter))

  unfoldable pub close_bluetooth : Config → M (Unit {0})
  close_bluetooth config = do stop_transmit config; with_device λ dd. emit (hci_closed dd)
