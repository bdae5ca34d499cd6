-- ===== src/Bluetooth/Trace/Init.antt =====
-- The command sequences of `init_bluetooth`, `close_bluetooth` and the sending functions.
use mathlib.Core.Bool.{true≢false}
use mathlib.Core.Path.{subst}
use transmitter_linux.Common.{
  ℕ, ◌*◌, ◌≡◌, refl, sym, Bool, true, false, List, [], ◌∷◌, ◌++◌, Option, none, some, if◌then◌else◌,
  ltb,
}
use transmitter_linux.Machine.{World, done, M, ◌>>◌, when, undefined, Env, >>=-done, hci_closed}
use transmitter_linux.Utils.{Config}
use transmitter_linux.Bluetooth.Buffers.{
  random_address_buf, advertising_parameters_buf, extended_advertising_parameters_buf,
  advertising_set_random_address_buf, extended_advertising_data_buf,
  extended_advertising_enable_buf,
}
use transmitter_linux.Bluetooth.Hci.{
  set_filter, open_hci_device, generate_random_mac_address, send_cmd, hci_reset,
  hci_le_read_local_supported_features, hci_le_set_random_address,
  hci_le_set_advertising_parameters, hci_le_set_advertising_disable, hci_le_set_advertising_enable,
  hci_le_set_advertising_set_random_address, hci_le_set_extended_advertising_parameters,
  hci_le_set_extended_advertising_data, hci_le_set_extended_advertising_disable,
  hci_le_set_extended_advertising_enable, hci_le_remove_advertising_set,
}
use transmitter_linux.Bluetooth.Api.{
  stop_transmit, set_up_btl, set_up_extended, init_bluetooth, send_bluetooth_message_extended_api,
  close_bluetooth,
}
use transmitter_linux.Bluetooth.Trace.Acts.{
  HciCommand, hci, commands-append, Ends, Sends, Sends->>, Sends-when,
}
use transmitter_linux.Bluetooth.Trace.Single.{send_cmd-Sends}

module _ (env : Env) where
  -- The commands of the LE controller group, and the reset.
  abbrev pub le : ℕ → List ℕ → HciCommand
  le ocf parameters = hci env.ogf_le_ctl ocf parameters

  abbrev pub reset : HciCommand
  reset = hci env.ogf_host_ctl env.ocf_reset []

  -- Both kinds of advertising off, then both advertising sets removed.
  abbrev pub stop_commands : Config → List HciCommand
  stop_commands config =
      le env.ocf_le_set_advertise_enable (0 ∷ [])
      ∷ le 0x39 (0 ∷ 0 ∷ [])
      ∷ le 0x3C (config.handle_bt4 ∷ [])
      ∷ le 0x3C (config.handle_bt5 ∷ [])
      ∷ []

  abbrev pub btl_commands : List ℕ → List HciCommand
  btl_commands mac =
      reset
      ∷ le env.ocf_le_set_advertising_parameters (advertising_parameters_buf 100)
      ∷ le env.ocf_le_set_random_address (random_address_buf mac)
      ∷ []

  abbrev pub extended_commands : ℕ → ℕ → Bool → List ℕ → List HciCommand
  extended_commands handle interval_ms long_range mac =
      reset
      ∷ le 0x36 (extended_advertising_parameters_buf handle interval_ms long_range)
      ∷ le 0x35 (advertising_set_random_address_buf handle mac)
      ∷ []

  abbrev pub enable_extended : Config → List HciCommand
  enable_extended config = le 0x39 (extended_advertising_enable_buf config) ∷ []

  -- The whole of `init_bluetooth`: everything is stopped first, each chosen kind is set up, and
  -- only then the chosen kinds are switched on.
  abbrev pub init_commands : Config → List ℕ → List HciCommand
  init_commands config mac =
      (reset ∷ [])
      ++ (stop_commands config
          ++ ((le env.ocf_le_read_local_supported_features [] ∷ [])
              ++ ((if config.use_btl then btl_commands mac else [])
                  ++ ((if config.use_bt4
                        then extended_commands config.handle_bt4 300 false mac
                        else [])
                      ++ ((if config.use_bt5
                            then extended_commands config.handle_bt5 950 true mac
                            else [])
                          ++ ((if config.use_btl
                                then le env.ocf_le_set_advertise_enable (1 ∷ []) ∷ []
                                else [])
                              ++ ((if config.use_bt4 then enable_extended config else [])
                                  ++ (if config.use_bt5 then enable_extended config else []))))))))

  stop_transmit-Sends : (config : Config) → Sends (stop_transmit env config) (stop_commands config)
  unfolding stop_transmit hci_le_set_advertising_disable hci_le_set_extended_advertising_disable
      hci_le_remove_advertising_set
  stop_transmit-Sends config =
      Sends->> (send_cmd-Sends env env.ogf_le_ctl env.ocf_le_set_advertise_enable (0 ∷ [])) (
        Sends->> (send_cmd-Sends env env.ogf_le_ctl 0x39 (0 ∷ 0 ∷ [])) (
          Sends->> (send_cmd-Sends env env.ogf_le_ctl 0x3C (config.handle_bt4 ∷ []))
            (send_cmd-Sends env env.ogf_le_ctl 0x3C (config.handle_bt5 ∷ []))))

  set_up_btl-Sends : (mac : List ℕ) → Sends (set_up_btl env mac) (btl_commands mac)
  unfolding set_up_btl hci_reset hci_le_set_advertising_parameters hci_le_set_random_address
  set_up_btl-Sends mac = Sends->> (send_cmd-Sends env env.ogf_host_ctl env.ocf_reset []) (
      Sends->>
        (send_cmd-Sends env env.ogf_le_ctl env.ocf_le_set_advertising_parameters
          (advertising_parameters_buf 100))
        (send_cmd-Sends env env.ogf_le_ctl env.ocf_le_set_random_address (random_address_buf mac)))

  guarded-Sends :
      (b : Bool) (k : World → M (Unit {0})) {cs : List HciCommand}
      → b ≡ false
      → Sends (λ w. k w w) cs
      → Sends (λ w. (if b then undefined else k w) w) cs
  guarded-Sends true k e p = absurd (true≢false e)
  guarded-Sends false k e p = p

  extended_parameters-Sends :
      (handle interval_ms : ℕ) (long_range : Bool)
      → ltb 0x7FFFFFFF (1000 * interval_ms) ≡ false
      → Sends
          (λ w.
            hci_le_set_extended_advertising_parameters env w.device_descriptor handle interval_ms
              long_range w)
          (le 0x36 (extended_advertising_parameters_buf handle interval_ms long_range) ∷ [])
  unfolding hci_le_set_extended_advertising_parameters
  extended_parameters-Sends handle interval_ms long_range fits =
      let buf = extended_advertising_parameters_buf handle interval_ms long_range in
      guarded-Sends (ltb 0x7FFFFFFF (1000 * interval_ms))
        (λ w. send_cmd env w.device_descriptor env.ogf_le_ctl 0x36 buf) fits
        (send_cmd-Sends env env.ogf_le_ctl 0x36 buf)

  -- At the two intervals of `init_bluetooth` the product stays an `int`.
  set_up_extended-Sends :
      (handle interval_ms : ℕ) (long_range : Bool) (mac : List ℕ)
      → ltb 0x7FFFFFFF (1000 * interval_ms) ≡ false
      → Sends
          (set_up_extended env handle interval_ms long_range mac)
          (extended_commands handle interval_ms long_range mac)
  unfolding set_up_extended hci_reset hci_le_set_advertising_set_random_address
  set_up_extended-Sends handle interval_ms long_range mac fits =
      Sends->> (send_cmd-Sends env env.ogf_host_ctl env.ocf_reset []) (
        Sends->> (extended_parameters-Sends handle interval_ms long_range fits)
          (send_cmd-Sends env env.ogf_le_ctl 0x35 (advertising_set_random_address_buf handle mac)))

  enable_extended-Sends :
      (config : Config)
      → Sends
          (λ w. hci_le_set_extended_advertising_enable env w.device_descriptor config w)
          (enable_extended config)
  unfolding hci_le_set_extended_advertising_enable
  enable_extended-Sends config =
      send_cmd-Sends env env.ogf_le_ctl 0x39 (extended_advertising_enable_buf config)

  -- `init_bluetooth` behind the opening of the device.
  abbrev pub with_open_device : Config → M (Unit {0})
  with_open_device config = do
    let mac = generate_random_mac_address env
    λ w. hci_reset env w.device_descriptor w
    stop_transmit env config
    λ w. hci_le_read_local_supported_features env w.device_descriptor w
    when config.use_btl (set_up_btl env mac)
    when config.use_bt4 (set_up_extended env config.handle_bt4 300 false mac)
    when config.use_bt5 (set_up_extended env config.handle_bt5 950 true mac)
    when config.use_btl (λ w. hci_le_set_advertising_enable env w.device_descriptor w)
    when config.use_bt4
        (λ w. hci_le_set_extended_advertising_enable env w.device_descriptor config w)
    when config.use_bt5
        (λ w. hci_le_set_extended_advertising_enable env w.device_descriptor config w)

  with_open_device-Sends :
      (config : Config)
      → Sends (with_open_device config) (init_commands config (generate_random_mac_address env))
  unfolding hci_reset hci_le_read_local_supported_features hci_le_set_advertising_enable
  with_open_device-Sends config =
      let mac = generate_random_mac_address env in
      Sends->> (send_cmd-Sends env env.ogf_host_ctl env.ocf_reset []) (
        Sends->> (stop_transmit-Sends config) (
          Sends->> (send_cmd-Sends env env.ogf_le_ctl env.ocf_le_read_local_supported_features []) (
            Sends->> (Sends-when config.use_btl (set_up_btl-Sends mac)) (
              Sends->>
                (Sends-when config.use_bt4
                  (set_up_extended-Sends config.handle_bt4 300 false mac refl))
                (Sends->>
                  (Sends-when config.use_bt5
                    (set_up_extended-Sends config.handle_bt5 950 true mac refl))
                  (Sends->>
                    (Sends-when config.use_btl
                      (send_cmd-Sends env env.ogf_le_ctl env.ocf_le_set_advertise_enable (1 ∷ [])))
                    (Sends->> (Sends-when config.use_bt4 (enable_extended-Sends config))
                      (Sends-when config.use_bt5 (enable_extended-Sends config)))))))))

  -- Which descriptor the device has, if it can be opened and filtered.
  abbrev pub opens : Option ℕ
  opens = env.hci_open_dev (elim env.hci_devid [ none ↦ env.hci_get_route | some id ↦ some id ])

  pub open_hci_device-done :
      (dd : ℕ) (w : World)
      → opens ≡ some dd
      → env.hci_filter_set ≡ true
      → open_hci_device env w ≡ done dd w
  unfolding open_hci_device set_filter
  open_hci_device-done dd w opened filtered = simp (opened, filtered)

  -- If the device opens as `dd` and takes the filter, `init_bluetooth` sends on it, whatever the
  -- controller answers, exactly the commands of `init_commands` in order if it returns, and a
  -- first part of them if it does not.
  pub init_bluetooth-Ends :
      (config : Config) (dd : ℕ) (w : World)
      → opens ≡ some dd
      → env.hci_filter_set ≡ true
      → Ends
          (record w { device_descriptor = dd })
          (init_commands config (generate_random_mac_address env))
          (init_bluetooth env config w)
  unfolding init_bluetooth
  init_bluetooth-Ends config dd w opened filtered =
      let w' : World = record w { device_descriptor = dd } in
      subst (Ends w' (init_commands config (generate_random_mac_address env)))
        (sym (
          >>=-done (open_hci_device env)
            (λ d v. with_open_device config (record v { device_descriptor = d }))
            (open_hci_device-done dd w opened filtered)))
        ((with_open_device-Sends config).ends w')

  -- `close_bluetooth` sends, whatever the controller answers, exactly the four commands that stop
  -- all advertising and remove both sets, in order, if it returns, and a first part of them if it
  -- does not.
  pub close_bluetooth-Sends :
      (config : Config) → Sends (close_bluetooth env config) (stop_commands config)
  unfolding close_bluetooth
  close_bluetooth-Sends config = Sends->> (stop_transmit-Sends config) closed
    where
      closed :
          Sends
            (λ w. done tt (record w { out = w.out ++ (hci_closed w.device_descriptor ∷ []) }))
            []
      closed = record {
        ends = λ w. record {
          log = commands-append w.out (hci_closed w.device_descriptor ∷ []);
          device = refl;
        };
      }

  -- What a single message sends over the three kinds of Bluetooth advertising.
  abbrev pub message_commands : List ℕ → ℕ → Config → List HciCommand
  message_commands encoded counter config =
      (if config.use_bt4
        then le 0x37 (extended_advertising_data_buf config.handle_bt4 encoded counter) ∷ []
        else [])
      ++ (if config.use_bt5
          then le 0x37 (extended_advertising_data_buf config.handle_bt5 encoded counter) ∷ []
          else [])

  -- A single message is sent, whatever the controller answers, as exactly one advertising data
  -- command for the Bluetooth 4 set and then one for the Bluetooth 5 set, each if its kind is
  -- used, if the call returns, and as a first part of these if it does not.
  pub send_bluetooth_message_extended_api-Sends :
      (encoded : List ℕ) (counter : ℕ) (config : Config)
      → Sends
          (send_bluetooth_message_extended_api env encoded counter config)
          (message_commands encoded counter config)
  unfolding send_bluetooth_message_extended_api hci_le_set_extended_advertising_data
  send_bluetooth_message_extended_api-Sends encoded counter config =
      Sends->>
        (Sends-when config.use_bt4 (
          send_cmd-Sends env env.ogf_le_ctl 0x37
            (extended_advertising_data_buf config.handle_bt4 encoded counter)))
        (Sends-when config.use_bt5 (
          send_cmd-Sends env env.ogf_le_ctl 0x37
            (extended_advertising_data_buf config.handle_bt5 encoded counter)))
