-- ===== src/Bluetooth/Answers.antt =====
-- How many answers of the controller the functions of bluetooth.c take, and that they return when
-- they get them.
use mathlib.Core.Bool.{true≢false}
use mathlib.Core.Path.{subst}
use transmitter_linux.Common.{
  ℕ, ◌+◌, ◌*◌, ◌≡◌, refl, sym, Bool, true, false, some, List, [], ◌∷◌, if◌then◌else◌, ltb,
}
use transmitter_linux.Machine.{ReadResult, World, M, undefined, Env, Effect, >>=-done, hci_command}
use transmitter_linux.Utils.{Config}
use transmitter_linux.Bluetooth.Buffers.{
  random_address_buf, advertising_parameters_buf, extended_advertising_parameters_buf,
  advertising_set_random_address_buf, extended_advertising_data_buf,
  extended_advertising_enable_buf,
}
use transmitter_linux.Bluetooth.Hci.{
  open_hci_device, generate_random_mac_address, send_cmd, hci_reset,
  hci_le_read_local_supported_features, hci_le_set_random_address,
  hci_le_set_advertising_parameters, hci_le_set_advertising_disable, hci_le_set_advertising_enable,
  hci_le_set_advertising_set_random_address, hci_le_set_extended_advertising_parameters,
  hci_le_set_extended_advertising_data, hci_le_set_extended_advertising_disable,
  hci_le_set_extended_advertising_enable, hci_le_remove_advertising_set,
}
use transmitter_linux.Bluetooth.Api.{
  stop_transmit, set_up_btl, set_up_extended, init_bluetooth, send_bluetooth_message_extended_api,
  close_bluetooth,
}
use transmitter_linux.Bluetooth.Keeping.{Leaves}
use transmitter_linux.Bluetooth.Events.{send_cmd-Leaves}
use transmitter_linux.Bluetooth.Trace.Init.{opens, with_open_device, open_hci_device-done}
use transmitter_linux.Bluetooth.Takes.{Answered, Takes, Takes->>, Takes-when}

module _ (env : Env) where
  -- The socket takes every command.
  abbrev pub Accepts : Type 0
  Accepts = (out : List Effect) (e : Effect) → env.hci_send_cmd out e ≡ true

  module _ (accepts : Accepts) where
    pub send_cmd-Takes :
        (ogf ocf : ℕ) (cmd_data : List ℕ)
        → Takes env 1 (λ w. send_cmd env w.device_descriptor ogf ocf cmd_data w)
    send_cmd-Takes ogf ocf cmd_data = record {
      takes = λ w rest answers.
          let (rs, bytes, more, read, retried, fits, low, high, last) = answers in
          subst (λ r. Leaves r (send_cmd env w.device_descriptor ogf ocf cmd_data w)) last
            (send_cmd-Leaves env w.device_descriptor ogf ocf cmd_data rs bytes more w
              (accepts w.out (hci_command w.device_descriptor ogf ocf cmd_data)) read retried fits
              low high);
    }

    stop_transmit-Takes : (config : Config) → Takes env 4 (stop_transmit env config)
    unfolding stop_transmit hci_le_set_advertising_disable hci_le_set_extended_advertising_disable
        hci_le_remove_advertising_set
    stop_transmit-Takes config =
        Takes->> env (send_cmd-Takes env.ogf_le_ctl env.ocf_le_set_advertise_enable (0 ∷ [])) (
          Takes->> env (send_cmd-Takes env.ogf_le_ctl 0x39 (0 ∷ 0 ∷ [])) (
            Takes->> env (send_cmd-Takes env.ogf_le_ctl 0x3C (config.handle_bt4 ∷ []))
              (send_cmd-Takes env.ogf_le_ctl 0x3C (config.handle_bt5 ∷ []))))

    set_up_btl-Takes : (mac : List ℕ) → Takes env 3 (set_up_btl env mac)
    unfolding set_up_btl hci_reset hci_le_set_advertising_parameters hci_le_set_random_address
    set_up_btl-Takes mac = Takes->> env (send_cmd-Takes env.ogf_host_ctl env.ocf_reset []) (
        Takes->> env
          (send_cmd-Takes env.ogf_le_ctl env.ocf_le_set_advertising_parameters
            (advertising_parameters_buf 100))
          (send_cmd-Takes env.ogf_le_ctl env.ocf_le_set_random_address (random_address_buf mac)))

    pub guarded-Takes :
        (b : Bool) (k : World → M (Unit {0})) {n : ℕ}
        → b ≡ false
        → Takes env n (λ w. k w w)
        → Takes env n (λ w. (if b then undefined else k w) w)
    guarded-Takes true k e p = absurd (true≢false e)
    guarded-Takes false k e p = p

    set_up_extended-Takes :
        (handle interval_ms : ℕ) (long_range : Bool) (mac : List ℕ)
        → ltb 0x7FFFFFFF (1000 * interval_ms) ≡ false
        → Takes env 3 (set_up_extended env handle interval_ms long_range mac)
    unfolding set_up_extended hci_reset hci_le_set_advertising_set_random_address
        hci_le_set_extended_advertising_parameters
    set_up_extended-Takes handle interval_ms long_range mac fits =
        let buf = extended_advertising_parameters_buf handle interval_ms long_range in
        Takes->> env (send_cmd-Takes env.ogf_host_ctl env.ocf_reset []) (
          Takes->> env
            (guarded-Takes (ltb 0x7FFFFFFF (1000 * interval_ms))
              (λ w. send_cmd env w.device_descriptor env.ogf_le_ctl 0x36 buf) fits
              (send_cmd-Takes env.ogf_le_ctl 0x36 buf))
            (send_cmd-Takes env.ogf_le_ctl 0x35 (advertising_set_random_address_buf handle mac)))

    enable_extended-Takes :
        (config : Config)
        → Takes env 1 (λ w. hci_le_set_extended_advertising_enable env w.device_descriptor config w)
    unfolding hci_le_set_extended_advertising_enable
    enable_extended-Takes config =
        send_cmd-Takes env.ogf_le_ctl 0x39 (extended_advertising_enable_buf config)

    -- How many events `init_bluetooth` reads.
    abbrev pub init_count : Config → ℕ
    init_count config =
        1
        + (4
            + (1
                + ((if config.use_btl then 3 else 0)
                    + ((if config.use_bt4 then 3 else 0)
                        + ((if config.use_bt5 then 3 else 0)
                            + ((if config.use_btl then 1 else 0)
                                + ((if config.use_bt4 then 1 else 0)
                                    + (if config.use_bt5 then 1 else 0))))))))

    with_open_device-Takes :
        (config : Config) → Takes env (init_count config) (with_open_device env config)
    unfolding hci_reset hci_le_read_local_supported_features hci_le_set_advertising_enable
    with_open_device-Takes config =
        let mac = generate_random_mac_address env in
        Takes->> env (send_cmd-Takes env.ogf_host_ctl env.ocf_reset []) (
          Takes->> env (stop_transmit-Takes config) (
            Takes->> env (send_cmd-Takes env.ogf_le_ctl env.ocf_le_read_local_supported_features [])
              (Takes->> env (Takes-when env config.use_btl (set_up_btl-Takes mac)) (
                Takes->> env
                  (Takes-when env config.use_bt4
                    (set_up_extended-Takes config.handle_bt4 300 false mac refl))
                  (Takes->> env
                    (Takes-when env config.use_bt5
                      (set_up_extended-Takes config.handle_bt5 950 true mac refl))
                    (Takes->> env
                      (Takes-when env config.use_btl
                        (send_cmd-Takes env.ogf_le_ctl env.ocf_le_set_advertise_enable (1 ∷ [])))
                      (Takes->> env (Takes-when env config.use_bt4 (enable_extended-Takes config))
                        (Takes-when env config.use_bt5 (enable_extended-Takes config)))))))))

    -- `init_bluetooth` returns, and has read just 6 events and 4 more for each chosen kind, if the
    -- device opens and takes the filter, the socket accepts every command, and the reads give so
    -- many events that fit the receive buffer and have from none to ten bytes behind the headers,
    -- each behind any number of interrupted reads.
    pub init_bluetooth-Leaves :
        (config : Config) (dd : ℕ) (w : World) (rest : List ReadResult)
        → opens env ≡ some dd
        → env.hci_filter_set ≡ true
        → Answered env (init_count config) w.reads rest
        → Leaves rest (init_bluetooth env config w)
    unfolding init_bluetooth
    init_bluetooth-Leaves config dd w rest opened filtered answers =
        subst (Leaves rest)
          (sym (
            >>=-done (open_hci_device env)
              (λ d v. with_open_device env config (record v { device_descriptor = d }))
              (open_hci_device-done env dd w opened filtered)))
          ((with_open_device-Takes config).takes (record w { device_descriptor = dd }) rest answers)

    pub close_bluetooth-Takes : (config : Config) → Takes env 4 (close_bluetooth env config)
    unfolding close_bluetooth
    close_bluetooth-Takes config =
        Takes->> env {b = 0} (stop_transmit-Takes config) (record { takes = λ w rest e. e })

    -- `close_bluetooth` returns, and has read just four events, if the socket accepts every command
    -- and the reads give four events that fit the receive buffer and have from none to ten bytes
    -- behind the headers, each behind any number of interrupted reads.
    pub close_bluetooth-Leaves :
        (config : Config) (w : World) (rest : List ReadResult)
        → Answered env 4 w.reads rest
        → Leaves rest (close_bluetooth env config w)
    close_bluetooth-Leaves config w rest answers =
        (close_bluetooth-Takes config).takes w rest answers

    pub send_bluetooth_message_extended_api-Takes :
        (encoded : List ℕ) (counter : ℕ) (config : Config)
        → Takes env
            ((if config.use_bt4 then 1 else 0) + (if config.use_bt5 then 1 else 0))
            (send_bluetooth_message_extended_api env encoded counter config)
    unfolding send_bluetooth_message_extended_api hci_le_set_extended_advertising_data
    send_bluetooth_message_extended_api-Takes encoded counter config =
        Takes->> env
          (Takes-when env config.use_bt4 (
            send_cmd-Takes env.ogf_le_ctl 0x37
              (extended_advertising_data_buf config.handle_bt4 encoded counter)))
          (Takes-when env config.use_bt5 (
            send_cmd-Takes env.ogf_le_ctl 0x37
              (extended_advertising_data_buf config.handle_bt5 encoded counter)))

    -- A single message over extended advertising: the call returns, and has read just one event
    -- for each of the two kinds that are used, if the socket accepts every command and the reads
    -- give so many events that fit the receive buffer and have from none to ten bytes behind the
    -- headers, each behind any number of interrupted reads.
    pub send_bluetooth_message_extended_api-Leaves :
        (encoded : List ℕ) (counter : ℕ) (config : Config) (w : World) (rest : List ReadResult)
        → Answered env
            ((if config.use_bt4 then 1 else 0) + (if config.use_bt5 then 1 else 0))
            w.reads
            rest
        → Leaves rest (send_bluetooth_message_extended_api env encoded counter config w)
    send_bluetooth_message_extended_api-Leaves encoded counter config w rest answers =
        (send_bluetooth_message_extended_api-Takes encoded counter config).takes w rest answers
