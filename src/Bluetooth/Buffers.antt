-- ===== src/Bluetooth/Buffers.antt =====
-- The parameter bytes of each HCI command of bluetooth.c: the initialiser of the function's `buf`
-- and the writes into it. A buffer is a list; a `uint8_t` wraps by `% 256`.
use transmitter_linux.Common.{
  ℕ, ◌+◌, ◌*◌, ◌/◌, ◌%◌, Bool, List, [], ◌∷◌, ◌++◌, min, max, set, copy_at, take, replicate,
  if◌then◌else◌, ◌&&◌,
}
use transmitter_linux.Utils.{Config}

-- `ODID_MESSAGE_SIZE`: the buffers below have room for "25-byte Drone ID message data".
abbrev pub message_size : ℕ
message_size = 25

-- `for (i = 0; i < 6; i++) buf[i] = mac[i];` on the six bytes at `mac`
unfoldable pub random_address_buf : List ℕ → List ℕ
random_address_buf mac = copy_at (replicate 6 0x00) 0 (take 6 mac)

-- `MIN(MAX((1000 * interval_ms) / 625, low), high)`, for an interval that is not negative
abbrev pub interval_units : ℕ → ℕ → ℕ → ℕ
interval_units low high interval_ms = min (max (1000 * interval_ms / 625) low) high

unfoldable pub advertising_parameters_buf : ℕ → List ℕ
advertising_parameters_buf interval_ms =
    let buf : List ℕ =
      0x00 ∷ 0x08 ∷ 0x00 ∷ 0x08 ∷ 0x03 ∷ 0x01 ∷ 0x00 ∷ 0x00 ∷ 0x00 ∷ 0x00 ∷ 0x00 ∷ 0x00 ∷ 0x00
      ∷ 0x07 ∷ 0x00 ∷ [] in
    let units = interval_units 0x0020 0x4000 interval_ms in
    let buf = set (set buf 2 (units % 256)) 0 (units % 256) in
    set (set buf 3 (units / 256 % 256)) 1 (units / 256 % 256)

-- The three writes into `Primary_Advertising_Interval_{Min,Max}`, then those for long range.
set_interval : List ℕ → ℕ → List ℕ
set_interval buf units =
    let buf = set (set buf 6 (units % 256)) 3 (units % 256) in
    let buf = set (set buf 7 (units / 256 % 256)) 4 (units / 256 % 256) in
    set (set buf 8 (units / 65536 % 256)) 5 (units / 65536 % 256)

unfoldable pub extended_advertising_parameters_buf : ℕ → ℕ → Bool → List ℕ
unfolding set_interval
extended_advertising_parameters_buf handle interval_ms long_range =
    let buf : List ℕ =
      0x00 ∷ 0x10 ∷ 0x00 ∷ 0x00 ∷ 0x08 ∷ 0x00 ∷ 0x00 ∷ 0x08 ∷ 0x00 ∷ 0x07 ∷ 0x01 ∷ 0x00 ∷ 0x00
      ∷ 0x00 ∷ 0x00 ∷ 0x00 ∷ 0x00 ∷ 0x00 ∷ 0x00 ∷ 0x7F ∷ 0x01 ∷ 0x00 ∷ 0x01 ∷ 0x00 ∷ 0x00 ∷ [] in
    let buf = set_interval (set buf 0 handle) (interval_units 0x000020 0xFFFFFF interval_ms) in
    if long_range then set (set (set buf 1 0x00) 20 0x03) 22 0x03 else buf

unfoldable pub advertising_data_buf : List ℕ → ℕ → List ℕ
advertising_data_buf raw_data msg_counter =
    let buf : List ℕ =
      (0x1F ∷ 0x1E ∷ 0x16 ∷ 0xFA ∷ 0xFF ∷ 0x0D ∷ 0x00 ∷ []) ++ replicate message_size 0x00 in
    copy_at (set buf 6 msg_counter) 7 (take message_size raw_data)

unfoldable pub advertising_set_random_address_buf : ℕ → List ℕ → List ℕ
advertising_set_random_address_buf handle mac =
    copy_at (set (replicate 7 0x00) 0 handle) 1 (take 6 mac)

unfoldable pub extended_advertising_data_buf : ℕ → List ℕ → ℕ → List ℕ
extended_advertising_data_buf handle raw_data msg_counter =
    let buf : List ℕ =
      (0x00 ∷ 0x03 ∷ 0x01 ∷ 0x1F ∷ 0x1E ∷ 0x16 ∷ 0xFA ∷ 0xFF ∷ 0x0D ∷ 0x00 ∷ [])
      ++ replicate message_size 0x00 in
    copy_at (set (set buf 0 handle) 9 msg_counter) 10 (take message_size raw_data)

-- `pack_bytes` is the memory of the encoded pack, `amount` its `MsgPackSize`, and
-- `pack_max_messages` the `ODID_PACK_MAX_MESSAGES` that fixes the size of the buffer. The caller
-- guards against an `amount` for which the loop leaves the buffer.
unfoldable pub extended_advertising_data_pack_buf : ℕ → ℕ → ℕ → List ℕ → ℕ → List ℕ
extended_advertising_data_pack_buf pack_max_messages handle amount pack_bytes msg_counter =
    let buf : List ℕ =
      (0x00 ∷ 0x03 ∷ 0x01 ∷ 0x1F ∷ 0x1E ∷ 0x16 ∷ 0xFA ∷ 0xFF ∷ 0x0D ∷ 0x00 ∷ [])
      ++ replicate (3 + pack_max_messages * message_size) 0x00 in
    let buf = set (set buf 0 handle) 9 msg_counter in
    let buf = set buf 3 ((1 + 5 + 3 + amount * message_size) % 256) in
    let buf = set buf 4 ((5 + 3 + amount * message_size) % 256) in
    copy_at buf 10 (take (3 + amount * message_size) pack_bytes)

unfoldable pub extended_advertising_enable_buf : Config → List ℕ
extended_advertising_enable_buf config =
    let buf : List ℕ = 0x01 ∷ 0x01 ∷ 0x00 ∷ 0x00 ∷ 0x00 ∷ 0x00 ∷ 0x00 ∷ 0x00 ∷ [] in
    if config.use_bt4 && config.use_bt5
    then set (set (set buf 1 2) 2 config.handle_bt4) 3 config.handle_bt5
    else if config.use_bt4
    then set buf 2 config.handle_bt4
    else if config.use_bt5
    then set buf 2 config.handle_bt5
    else buf
