-- ===== src/Bluetooth/Controller/Advertising.antt =====
-- What the functions of bluetooth.h put on the air, on a controller that keeps to the interface.
use mathlib.Core.Path.{subst}
use transmitter_linux.Common.{
  ℕ, ◌+◌, ◌≤◌, ◌≡◌, refl, sym, ap, ◌∙◌, true, Option, none, some, List, length, if◌then◌else◌,
}
use transmitter_linux.Machine.{ReadResult, World, M, done, ◌>>◌, Env}
use transmitter_linux.Utils.{Config}
use transmitter_linux.Bluetooth.Buffers.{message_size, advertising_data_buf}
use transmitter_linux.Bluetooth.Hci.{generate_random_mac_address, hci_le_set_advertising_data}
use transmitter_linux.Bluetooth.Api.{
  init_bluetooth, send_bluetooth_message, send_bluetooth_message_extended_api, close_bluetooth,
}
use transmitter_linux.Bluetooth.Takes.{Answered, Takes, Takes->>, Takes-when}
use transmitter_linux.Bluetooth.Answers.{
  Accepts, init_count, send_cmd-Takes, init_bluetooth-Leaves, close_bluetooth-Leaves,
  send_bluetooth_message_extended_api-Takes,
}
use transmitter_linux.Bluetooth.Trace.Acts.{Sends, Sends->>}
use transmitter_linux.Bluetooth.Trace.Init.{
  opens, init_commands, stop_commands, init_bluetooth-Ends, close_bluetooth-Sends,
  send_bluetooth_message_extended_api-Sends,
}
use transmitter_linux.Bluetooth.Trace.Sending.{send_bluetooth_message-Sends}
use transmitter_linux.Bluetooth.Controller.{Controller, obey}
use transmitter_linux.Bluetooth.Controller.Obeying.{Obeyed, returns-Obeyed}
use transmitter_linux.Bluetooth.Controller.Views.{advertised, apart, some_kind, init_commands_lem}
use transmitter_linux.Bluetooth.Controller.Payload.{
  service_data, Silent, data_commands, data_commands_lem, stop_commands_lem,
}

-- `send_message` of transmit.c for Bluetooth.
abbrev pub send_both : Env → List ℕ → ℕ → Config → M (Unit {0})
send_both env encoded counter config = do
  send_bluetooth_message env encoded counter config
  send_bluetooth_message_extended_api env encoded counter config

-- How many events that reads.
abbrev pub message_count : Config → ℕ
message_count config =
    (if config.use_btl then 1 else 0)
    + ((if config.use_bt4 then 1 else 0) + (if config.use_bt5 then 1 else 0))

module _ (env : Env) (c : Controller env) (accepts : Accepts env) where
  open c use {State, view}

  init_bluetooth-Obeyed :
      (config : Config) (dd : ℕ) (w : World) (rest : List ReadResult) (s : State)
      → opens env ≡ some dd
      → env.hci_filter_set ≡ true
      → Answered env (init_count env accepts config) w.reads rest
      → Obeyed env c
          (init_bluetooth env config)
          w
          (init_commands env config (generate_random_mac_address env))
          s
  init_bluetooth-Obeyed config dd w rest s opened filtered answers =
      returns-Obeyed env c (init_bluetooth env config) w (record w { device_descriptor = dd })
        (init_commands env config (generate_random_mac_address env)) rest s refl
        (init_bluetooth-Leaves env accepts config dd w rest opened filtered answers)
        (init_bluetooth-Ends env config dd w opened filtered)

  -- For one kind of extended advertising, with legacy advertising or without, or legacy advertising
  -- alone, and handles that the specification allows: if the device opens and takes the filter,
  -- the socket accepts every command and the controller answers each, `init_bluetooth` returns, and
  -- leaves a controller, in whatever state it was before, so: with extended advertising chosen it
  -- holds one set with the kind's handle, interval and coding and the random address that was
  -- generated, and advertises it if it takes the two surplus bytes of the command that enables the
  -- set, but not if it refuses that command as the specification says; with legacy advertising
  -- alone, it advertises with this address.
  pub init_bluetooth-OnAir :
      (config : Config) (dd : ℕ) (w : World) (rest : List ReadResult) (s : State)
      → opens env ≡ some dd
      → env.hci_filter_set ≡ true
      → Answered env (init_count env accepts config) w.reads rest
      → apart config ≡ true
      → some_kind config ≡ true
      → config.handle_bt4 ≤ 0xEF
      → config.handle_bt5 ≤ 0xEF
      → (w' : World) × (init_bluetooth env config w ≡ done tt w')
        × (view (obey env c w'.out s)
            ≡ advertised c.takes_surplus config (generate_random_mac_address env) none)
  init_bluetooth-OnAir config dd w rest s opened filtered answers one some_of fits4 fits5 =
      let (w', ended, obeyed) = init_bluetooth-Obeyed config dd w rest s opened filtered answers in
      (
        w',
        ended,
        ap view obeyed
            ∙ init_commands_lem env c config (obey env c w.out s) one some_of fits4 fits5,
      )

  send_both-Sends :
      (encoded : List ℕ) (counter : ℕ) (config : Config)
      → Sends (send_both env encoded counter config) (data_commands env c encoded counter config)
  send_both-Sends encoded counter config =
      Sends->> (send_bluetooth_message-Sends env encoded counter config)
        (send_bluetooth_message_extended_api-Sends env encoded counter config)

  send_both-Takes :
      (encoded : List ℕ) (counter : ℕ) (config : Config)
      → Takes env (message_count config) (send_both env encoded counter config)
  unfolding send_bluetooth_message hci_le_set_advertising_data
  send_both-Takes encoded counter config =
      Takes->> env
        (Takes-when env config.use_btl (
          send_cmd-Takes env accepts env.ogf_le_ctl env.ocf_le_set_advertising_data
            (advertising_data_buf encoded counter)))
        (send_bluetooth_message_extended_api-Takes env accepts encoded counter config)

  -- While a controller holds what `init_bluetooth` leaves for one kind, or for legacy advertising
  -- with one other, a message of 25 bytes that is sent over the kinds in use, with the controller
  -- answering each command, returns, and the controller holds the service data of just this
  -- message and counter as the payload, and is otherwise as it was.
  pub send_both-advertised :
      (encoded : List ℕ) (counter : ℕ) (config : Config) (w : World) (rest : List ReadResult)
      (mac : List ℕ) (payload : Option (List ℕ)) (s : State)
      → length encoded ≡ message_size
      → Answered env (message_count config) w.reads rest
      → apart config ≡ true
      → some_kind config ≡ true
      → view (obey env c w.out s) ≡ advertised c.takes_surplus config mac payload
      → (w' : World) × (send_both env encoded counter config w ≡ done tt w')
        × (view (obey env c w'.out s)
            ≡ advertised c.takes_surplus config mac (some (service_data counter encoded)))
  send_both-advertised encoded counter config w rest mac payload s size answers one some_of on_air =
      let (w', ended, obeyed) =
        returns-Obeyed env c (send_both env encoded counter config) w w
          (data_commands env c encoded counter config) rest s refl
          ((send_both-Takes encoded counter config).takes w rest answers)
          ((send_both-Sends encoded counter config).ends w) in
      (
        w',
        ended,
        ap view obeyed
            ∙ data_commands_lem env c encoded counter size config mac payload (obey env c w.out s)
                one some_of on_air,
      )

  -- While a controller holds what `init_bluetooth` leaves for the kinds in use, `close_bluetooth` returns if the controller answers each
  -- of its commands, and the controller advertises nothing any more and has no set left.
  pub close_bluetooth-Silent :
      (config : Config) (w : World) (rest : List ReadResult) (mac : List ℕ)
      (payload : Option (List ℕ)) (s : State)
      → Answered env 4 w.reads rest
      → view (obey env c w.out s) ≡ advertised c.takes_surplus config mac payload
      → (w' : World) × (close_bluetooth env config w ≡ done tt w')
        × Silent (view (obey env c w'.out s))
  close_bluetooth-Silent config w rest mac payload s answers on_air =
      let (w', ended, obeyed) =
        returns-Obeyed env c (close_bluetooth env config) w w (stop_commands env config) rest s refl
          (close_bluetooth-Leaves env accepts config w rest answers)
          ((close_bluetooth-Sends env config).ends w) in
      (
        w',
        ended,
        subst (λ t. Silent (view t)) (sym obeyed)
            (stop_commands_lem env c config mac payload (obey env c w.out s) on_air),
      )
