-- ===== src/Bluetooth/Btmgmt.antt =====
-- `send_bluetooth_message_btmgmt`, which sends a message by two shell commands.
use transmitter_linux.Common.{
  ℕ, ◌+◌, ◌-◌, ◌*◌, List, [], ◌∷◌, ◌++◌, codes, take, replicate, copy_at, some,
}
use transmitter_linux.Machine.{M, ◌>>◌, emit, shell}
use transmitter_linux.Utils.{uchar_to_ascii, write_hex}
use transmitter_linux.Utils.Text.{c_string}
use transmitter_linux.Bluetooth.Buffers.{message_size}

-- `cmd`, without its NUL.
abbrev pub btmgmt_cmd : List ℕ
btmgmt_cmd = codes "btmgmt add-adv -d 1E16FAFF0D00"

-- `sizeof(cmd)`
abbrev pub sizeof_cmd : ℕ
sizeof_cmd = 31

-- `data` of `sizeof(cmd) + 2*ODID_MESSAGE_SIZE + 2` bytes when it is given to the shell.
unfoldable pub btmgmt_data : List ℕ → ℕ → List ℕ
unfolding uchar_to_ascii write_hex
btmgmt_data encoded msg_counter =
    let data' = btmgmt_cmd ++ replicate (1 + 2 * message_size + 2) 0 in
    let data' = uchar_to_ascii (some 28) msg_counter data' in
    let data' = write_hex data' 30 (take message_size encoded) in
    copy_at data' (sizeof_cmd - 1 + 2 * message_size) (codes " 1" ++ (0 ∷ []))

unfoldable pub send_bluetooth_message_btmgmt : List ℕ → ℕ → M (Unit {0})
unfolding btmgmt_data c_string
send_bluetooth_message_btmgmt encoded msg_counter = do
  emit (shell (codes "btmgmt rm-adv 0"))
  emit (shell (c_string (btmgmt_data encoded msg_counter)))
