-- ===== src/Bluetooth/Hci.antt =====
-- The commands of bluetooth.c: `send_cmd`, which sends one and waits for its event, and the
-- functions that send a command with its parameter bytes.
use Prim.Native.Nat.{bit_or}
use transmitter_linux.Common.{
  ℕ, ◌+◌, ◌-◌, ◌*◌, ◌%◌, Bool, Option, none, some, List, [], ◌∷◌, ◌++◌, ltb, ◌==◌, if◌then◌else◌,
  not, ◌&&◌, ◌||◌, length, take, drop, replicate, get_or, copy_at,
}
use transmitter_linux.Machine.{
  ReadResult, read_error, bytes_read, eagain, eintr, other_errno, exited, blocked, M, ◌>>◌, pure,
  skip, when, say, exit, undefined, exit_failure, Env, hci_command, open_failed, filter_failed,
  event_read_failed, bad_opcode, command_error, unknown_event, tx_power,
}
use transmitter_linux.Utils.{Config}
use transmitter_linux.Features.{print_bt_le_features}
use transmitter_linux.Bluetooth.Buffers.{
  random_address_buf, advertising_parameters_buf, extended_advertising_parameters_buf,
  advertising_data_buf, advertising_set_random_address_buf, extended_advertising_data_buf,
  extended_advertising_data_pack_buf, extended_advertising_enable_buf,
}

-- How the loop `while ((len = read(…)) < 0)` ends, with the reads that are left.
pub data Wait : Type 0 where
  event : List ℕ → List ReadResult → Wait
  gave_up : List ReadResult → Wait
  waiting : Wait

-- The loop takes one result after the other; with none left the next `read` never returns.
unfoldable pub wait_event : List ReadResult → Wait
wait_event [] = waiting
wait_event (read_error eagain ∷ rest) = wait_event rest
wait_event (read_error eintr ∷ rest) = wait_event rest
wait_event (read_error other_errno ∷ rest) = gave_up rest
wait_event (bytes_read bytes ∷ rest) = event bytes rest

-- `buf` after a read of `bytes`: `read` stores at most the size of `buf`, and the rest is zero.
abbrev pub received : ℕ → List ℕ → List ℕ
received size bytes = take size bytes ++ replicate (size - length bytes) 0

module _ (env : Env) where
  open env use {
    ogf_host_ctl, ogf_le_ctl, ocf_reset, ocf_le_set_random_address,
    ocf_le_set_advertising_parameters, ocf_le_set_advertising_data, ocf_le_set_advertise_enable,
    ocf_le_read_local_supported_features, evt_cmd_complete, hci_max_event_size, hci_event_hdr_size,
    evt_cmd_complete_size, opcode, hdr_evt, cc_opcode, hci_send_cmd, hci_devid, hci_get_route,
    hci_open_dev, hci_filter_set, rand, pack_max_messages,
  }

  -- The lines from `rparam` on: what is said of the return parameters.
  unfoldable pub report : ℕ → List ℕ → M (Unit {0})
  report ocf rparam = do
    let status = get_or rparam 0 0
    when (not (status == 0) && not (ocf == 0x3C)) (say (command_error ocf status))
    when (ocf == ocf_le_read_local_supported_features) (print_bt_le_features (drop 1 rparam))
    when (ocf == 0x36) (say (tx_power (get_or rparam 1 0)))

  -- The case EVT_CMD_COMPLETE, for `len` bytes read into `buf`. `memcpy(rparam, ptr, len)` is
  -- defined if `len` is not negative and at most the 10 bytes of `rparam`.
  unfoldable pub command_complete : ℕ → ℕ → ℕ → List ℕ → M (Unit {0})
  command_complete ogf ocf len ptr = do
    let skipped = 1 + hci_event_hdr_size + evt_cmd_complete_size
    when (not (cc_opcode ptr == opcode ogf ocf)) (say (bad_opcode (cc_opcode ptr) (opcode ogf ocf)))
    when (ltb len skipped || ltb 10 (len - skipped)) undefined
    report ocf (copy_at (replicate 10 0) 0 (take (len - skipped) (drop evt_cmd_complete_size ptr)))

  -- The `switch` on an event.
  unfoldable pub handle_event : ℕ → ℕ → List ℕ → M (Unit {0})
  handle_event ogf ocf bytes =
      let buf = received hci_max_event_size bytes in
      let evt = hdr_evt (drop 1 buf) in
      if evt == evt_cmd_complete
      then command_complete ogf ocf (length (take hci_max_event_size bytes))
          (drop (1 + hci_event_hdr_size) buf)
      else say (unknown_event evt)

  -- What follows the loop that reads the event.
  unfoldable pub after_wait : ℕ → ℕ → Wait → M (Unit {0})
  after_wait ogf ocf waiting w = blocked (record w { reads = [] })
  after_wait ogf ocf (gave_up rest) w = say event_read_failed (record w { reads = rest })
  after_wait ogf ocf (event bytes rest) w = handle_event ogf ocf bytes (record w { reads = rest })

  unfoldable pub send_cmd : ℕ → ℕ → ℕ → List ℕ → M (Unit {0})
  send_cmd dd ogf ocf cmd_data w =
      let command = hci_command dd ogf ocf cmd_data in
      if hci_send_cmd w.out command
      then after_wait ogf ocf (wait_event w.reads) (record w { out = w.out ++ (command ∷ []) })
      else exited exit_failure w

  -- What follows `hci_open_dev`.
  unfoldable pub set_filter : Option ℕ → M ℕ
  set_filter none = say open_failed >> exit exit_failure
  set_filter (some dd) = do
    when (not hci_filter_set) (say filter_failed >> exit exit_failure)
    pure dd

  unfoldable pub open_hci_device : M ℕ
  unfolding set_filter
  open_hci_device =
      set_filter
        (hci_open_dev (elim hci_devid [ none ↦ hci_get_route | some dev_id ↦ some dev_id ]))

  -- `rand() % 255` for each of the six bytes, then the two highest bits of the first.
  unfoldable pub generate_random_mac_address : List ℕ
  generate_random_mac_address =
      bit_or (rand 0 % 255) 0xC0
      ∷ (rand 1 % 255)
      ∷ (rand 2 % 255)
      ∷ (rand 3 % 255)
      ∷ (rand 4 % 255)
      ∷ (rand 5 % 255)
      ∷ []

  unfoldable pub hci_reset : ℕ → M (Unit {0})
  hci_reset dd = send_cmd dd ogf_host_ctl ocf_reset []

  unfoldable pub hci_le_read_local_supported_features : ℕ → M (Unit {0})
  hci_le_read_local_supported_features dd =
      send_cmd dd ogf_le_ctl ocf_le_read_local_supported_features []

  -- A null `mac` is `none`.
  unfoldable pub hci_le_set_random_address : ℕ → Option (List ℕ) → M (Unit {0})
  hci_le_set_random_address dd none = skip
  hci_le_set_random_address dd (some mac) =
      send_cmd dd ogf_le_ctl ocf_le_set_random_address (random_address_buf mac)

  -- `1000 * interval_ms` is an `int`.
  abbrev in_int : ℕ → M (Unit {0}) → M (Unit {0})
  in_int n k = if ltb 0x7FFFFFFF n then undefined else k

  unfoldable pub hci_le_set_advertising_parameters : ℕ → ℕ → M (Unit {0})
  hci_le_set_advertising_parameters dd interval_ms = in_int (1000 * interval_ms) (
      send_cmd dd ogf_le_ctl ocf_le_set_advertising_parameters
        (advertising_parameters_buf interval_ms))

  unfoldable pub hci_le_set_advertising_data : ℕ → List ℕ → ℕ → M (Unit {0})
  hci_le_set_advertising_data dd encoded msg_counter =
      send_cmd dd ogf_le_ctl ocf_le_set_advertising_data (advertising_data_buf encoded msg_counter)

  unfoldable pub hci_le_set_advertising_disable : ℕ → M (Unit {0})
  hci_le_set_advertising_disable dd = send_cmd dd ogf_le_ctl ocf_le_set_advertise_enable (0x00 ∷ [])

  unfoldable pub hci_le_set_advertising_enable : ℕ → M (Unit {0})
  hci_le_set_advertising_enable dd = send_cmd dd ogf_le_ctl ocf_le_set_advertise_enable (0x01 ∷ [])

  unfoldable pub hci_le_set_advertising_set_random_address : ℕ → ℕ → Option (List ℕ) → M (Unit {0})
  hci_le_set_advertising_set_random_address dd handle none = skip
  hci_le_set_advertising_set_random_address dd handle (some mac) =
      send_cmd dd ogf_le_ctl 0x35 (advertising_set_random_address_buf handle mac)

  unfoldable pub hci_le_set_extended_advertising_parameters : ℕ → ℕ → ℕ → Bool → M (Unit {0})
  hci_le_set_extended_advertising_parameters dd handle interval_ms long_range =
      in_int (1000 * interval_ms) (
        send_cmd dd ogf_le_ctl 0x36
          (extended_advertising_parameters_buf handle interval_ms long_range))

  unfoldable pub hci_le_set_extended_advertising_data : ℕ → ℕ → List ℕ → ℕ → M (Unit {0})
  hci_le_set_extended_advertising_data dd handle encoded msg_counter =
      send_cmd dd ogf_le_ctl 0x37 (extended_advertising_data_buf handle encoded msg_counter)

  -- A pack of more than `ODID_PACK_MAX_MESSAGES` messages is written past the buffer.
  unfoldable pub hci_le_set_extended_advertising_data_pack : ℕ → ℕ → ℕ → List ℕ → ℕ → M (Unit {0})
  hci_le_set_extended_advertising_data_pack dd handle amount pack_bytes msg_counter =
      if ltb pack_max_messages amount
      then undefined
      else send_cmd dd ogf_le_ctl 0x37 (
          extended_advertising_data_pack_buf pack_max_messages handle amount pack_bytes msg_counter)

  unfoldable pub hci_le_set_extended_advertising_disable : ℕ → M (Unit {0})
  hci_le_set_extended_advertising_disable dd = send_cmd dd ogf_le_ctl 0x39 (0x00 ∷ 0x00 ∷ [])

  unfoldable pub hci_le_set_extended_advertising_enable : ℕ → Config → M (Unit {0})
  hci_le_set_extended_advertising_enable dd config =
      send_cmd dd ogf_le_ctl 0x39 (extended_advertising_enable_buf config)

  unfoldable pub hci_le_remove_advertising_set : ℕ → ℕ → M (Unit {0})
  hci_le_remove_advertising_set dd handle = send_cmd dd ogf_le_ctl 0x3C (handle ∷ [])
