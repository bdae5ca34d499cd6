-- ===== src/Beacon/Defs.antt =====
-- The functions of wifi_beacon.h.
use transmitter_linux.Common.{
  ℕ, ◌+◌, ◌-◌, ◌*◌, ◌%◌, Bool, List, [], ◌∷◌, ◌++◌, some, ltb, codes, take, replicate,
}
use transmitter_linux.Machine.{M, ◌>>◌, when, emit, undefined, Env, slept_us}
use transmitter_linux.Utils.{uchar_to_ascii, write_hex}
unfoldable pub use transmitter_linux.Utils.Text.{c_string}
use transmitter_linux.Bluetooth.Buffers.{message_size}
use transmitter_linux.Hostapd.Table.{Handler}
use transmitter_linux.Hostapd.Control.{switch_thread, sem_wait}
use transmitter_linux.Hostapd.Commands.{wpa_request}

abbrev pub wifi_beacon_header_size : ℕ
wifi_beacon_header_size = 7

-- `data` after the `memcpy` of the 14 characters of `cmd[2]`, with room for `n` bytes as text
-- and the NUL at the end.
abbrev pub header_data : ℕ → List ℕ
header_data n = codes "dd1EFA0BBC0D00" ++ replicate (2 * n + 1) 0

-- `data` of `send_beacon_message` when it is sent.
unfoldable pub message_data : List ℕ → ℕ → List ℕ
unfolding uchar_to_ascii write_hex
message_data encoded msg_counter =
    let data' = uchar_to_ascii (some 12) msg_counter (header_data message_size) in
    write_hex data' (2 * wifi_beacon_header_size) (take message_size encoded)

-- `data` of `send_beacon_message_pack` when it is sent.
unfoldable pub pack_data : ℕ → ℕ → List ℕ → ℕ → List ℕ
unfolding uchar_to_ascii write_hex
pack_data pack_max_messages amount pack_bytes msg_counter =
    let data' = header_data (3 + pack_max_messages * message_size) in
    let length_byte = (wifi_beacon_header_size - 2 + 3 + amount * message_size) % 256 in
    let data' = uchar_to_ascii (some 2) length_byte data' in
    let data' = uchar_to_ascii (some 12) msg_counter data' in
    write_hex data' (2 * wifi_beacon_header_size) (take (3 + amount * message_size) pack_bytes)

module _ (env : Env) (other : Handler → List (List ℕ) → M Bool) where
  -- `wpa_request(ctrl_conn, …); sem_wait(&semaphore);`, the other thread running in between.
  unfoldable pub request_and_wait : List (List ℕ) → M (Unit {0})
  request_and_wait cmd = do switch_thread; wpa_request env other cmd; sem_wait

  unfoldable pub sleep : ℕ → M (Unit {0})
  sleep seconds = emit (slept_us (seconds * 1000000))

  unfoldable pub send_update_beacon : M (Unit {0})
  send_update_beacon = request_and_wait (codes "update_beacon" ∷ [])

  unfoldable pub send_beacon_message : List ℕ → ℕ → M (Unit {0})
  send_beacon_message encoded msg_counter = do
    let data' = c_string (message_data encoded msg_counter)
    request_and_wait (codes "set" ∷ codes "vendor_elements" ∷ data' ∷ [])
    send_update_beacon
    sleep 1

  -- A pack of more than `ODID_PACK_MAX_MESSAGES` messages is written past the buffer.
  unfoldable pub send_beacon_message_pack : ℕ → List ℕ → ℕ → M (Unit {0})
  send_beacon_message_pack amount pack_bytes msg_counter = do
    when (ltb env.pack_max_messages amount) undefined
    let data' = c_string (pack_data env.pack_max_messages amount pack_bytes msg_counter)
    request_and_wait (codes "set" ∷ codes "vendor_elements" ∷ data' ∷ [])
    sleep 1
    send_update_beacon
    sleep 1

  unfoldable pub send_quit : M (Unit {0})
  send_quit = request_and_wait (codes "quit" ∷ [])
