-- ===== src/Bluetooth/Layout.antt =====
-- What the parameter bytes say: intervals, headers, counters and the message behind them.
use mathlib.Core.List.{append-nil}
use mathlib.Core.Path.{ap₂}
use transmitter_linux.Common.{
  replicate-add, ℕ, ◌+◌, ◌-◌, ◌*◌, ◌/◌, ◌%◌, ◌≤◌, ◌≡◌, refl, sym, ◌∙◌, ap, Bool, true, false, List,
  [], ◌∷◌, ◌++◌, min, max, get_or, copy_at, take, drop, replicate, length, if◌then◌else◌, arith,
  copy_at-append, take_all, length-replicate, length-take,
}
use transmitter_linux.Bluetooth.Buffers.{
  message_size, advertising_parameters_buf, extended_advertising_parameters_buf,
  advertising_data_buf, extended_advertising_data_buf, extended_advertising_data_pack_buf,
}

-- A number from its bytes, the lowest first.
abbrev pub le_value : List ℕ → ℕ
le_value [] = 0
le_value (b ∷ bs) = b + 256 * le_value bs

-- For every interval that is not negative, the fields for the smallest and the largest
-- interval both read, lowest byte first, as the number of 0.625 ms units limited to 0x20 to
-- 0x4000, and the 15 bytes otherwise are those of the initialiser.
advertising_parameters_buf_lem :
    (ms : ℕ)
    → let buf = advertising_parameters_buf ms in
      (le_value (take 2 buf) ≡ min (max (1000 * ms / 625) 0x20) 0x4000)
      × (le_value (take 2 (drop 2 buf)) ≡ min (max (1000 * ms / 625) 0x20) 0x4000)
      × (drop 4 buf ≡ 3 ∷ 1 ∷ 0 ∷ 0 ∷ 0 ∷ 0 ∷ 0 ∷ 0 ∷ 0 ∷ 7 ∷ 0 ∷ [])
unfolding advertising_parameters_buf
advertising_parameters_buf_lem ms = (omega arith, omega arith, refl)

-- For every handle, every interval that is not negative and both coding choices, the 25 bytes
-- begin with the handle; the event properties read 0x0000 for long range and 0x0010 otherwise; the
-- fields for the smallest and the largest interval both read, lowest byte first, as the number of
-- 0.625 ms units limited to 0x20 to 0xFFFFFF; and both PHYs are 3 for long range and 1 otherwise.
extended_advertising_parameters_buf_lem :
    (handle ms : ℕ) (long_range : Bool)
    → let buf = extended_advertising_parameters_buf handle ms long_range in
      (get_or buf 0 0 ≡ handle)
      × (le_value (take 2 (drop 1 buf)) ≡ (if long_range then 0x0000 else 0x0010))
      × (le_value (take 3 (drop 3 buf)) ≡ min (max (1000 * ms / 625) 0x20) 0xFFFFFF)
      × (le_value (take 3 (drop 6 buf)) ≡ min (max (1000 * ms / 625) 0x20) 0xFFFFFF)
      × (get_or buf 20 0 ≡ (if long_range then 3 else 1))
      × (get_or buf 22 0 ≡ (if long_range then 3 else 1))
      × (length buf ≡ 25)
unfolding extended_advertising_parameters_buf
extended_advertising_parameters_buf_lem handle ms true =
    (refl, refl, omega arith, omega arith, refl, refl, refl)
extended_advertising_parameters_buf_lem handle ms false =
    (refl, refl, omega arith, omega arith, refl, refl, refl)

-- For every handle, every interval that is not negative and both coding choices: the parameters of
-- legacy advertising state the interval, limited to 0x20 to 0x4000 units of 0.625 ms, as the
-- smallest and the largest, lowest byte first, and are otherwise those of the initialiser; the 25
-- parameters of an extended set begin with the handle, state the event properties 0x0000 for long
-- range and 0x0010 otherwise, the interval limited to 0x20 to 0xFFFFFF units as the smallest and
-- the largest, and for both PHYs 3 for long range and 1 otherwise.
pub parameters_bufs_lem :
    (handle ms : ℕ) (long_range : Bool)
    → let legacy = advertising_parameters_buf ms in
      let buf = extended_advertising_parameters_buf handle ms long_range in
      ((le_value (take 2 legacy) ≡ min (max (1000 * ms / 625) 0x20) 0x4000)
        × (le_value (take 2 (drop 2 legacy)) ≡ min (max (1000 * ms / 625) 0x20) 0x4000)
        × (drop 4 legacy ≡ 3 ∷ 1 ∷ 0 ∷ 0 ∷ 0 ∷ 0 ∷ 0 ∷ 0 ∷ 0 ∷ 7 ∷ 0 ∷ []))
      × ((get_or buf 0 0 ≡ handle)
          × (le_value (take 2 (drop 1 buf)) ≡ (if long_range then 0x0000 else 0x0010))
          × (le_value (take 3 (drop 3 buf)) ≡ min (max (1000 * ms / 625) 0x20) 0xFFFFFF)
          × (le_value (take 3 (drop 6 buf)) ≡ min (max (1000 * ms / 625) 0x20) 0xFFFFFF)
          × (get_or buf 20 0 ≡ (if long_range then 3 else 1))
          × (get_or buf 22 0 ≡ (if long_range then 3 else 1))
          × (length buf ≡ 25))
parameters_bufs_lem handle ms long_range = (
  advertising_parameters_buf_lem ms,
  extended_advertising_parameters_buf_lem handle ms long_range,
)

copy_message :
    (head : List ℕ) (raw_data : List ℕ)
    → length raw_data ≡ message_size
    → copy_at (head ++ replicate message_size 0) (length head) (take message_size raw_data)
      ≡ head ++ raw_data
copy_message head raw_data h =
    ap (λ k. copy_at (head ++ k) (length head) (take message_size raw_data))
      (sym (append-nil (replicate message_size 0)))
    ∙ copy_at-append head (replicate message_size 0) (take message_size raw_data) []
        (ap length (take_all message_size raw_data (omega arith)) ∙ h)
    ∙ ap (λ k. head ++ k)
        (append-nil (take message_size raw_data) ∙ take_all message_size raw_data (omega arith))

-- For a message of 25 bytes, the 32 parameter bytes of legacy advertising are the two lengths 31
-- and 30, the AD type 0x16, the UUID FA FF, the code 0x0D, the counter, and the message, byte for
-- byte; those of extended advertising are the handle, the operation 3, the fragment preference 1,
-- and then the same bytes.
pub data_bufs_lem :
    (handle : ℕ) (raw_data : List ℕ) (counter : ℕ)
    → length raw_data ≡ message_size
    → let data' = (31 ∷ 30 ∷ 0x16 ∷ 0xFA ∷ 0xFF ∷ 0x0D ∷ counter ∷ []) ++ raw_data in
      (advertising_data_buf raw_data counter ≡ data')
      × (extended_advertising_data_buf handle raw_data counter ≡ handle ∷ 3 ∷ 1 ∷ data')
unfolding advertising_data_buf extended_advertising_data_buf
data_bufs_lem handle raw_data counter h = (
  copy_message (31 ∷ 30 ∷ 0x16 ∷ 0xFA ∷ 0xFF ∷ 0x0D ∷ counter ∷ []) raw_data h,
  copy_message (handle ∷ 3 ∷ 1 ∷ 31 ∷ 30 ∷ 0x16 ∷ 0xFA ∷ 0xFF ∷ 0x0D ∷ counter ∷ []) raw_data h,
)

-- The bytes behind a pack in the buffer.
abbrev pub unused : ℕ → ℕ → List ℕ
unused pack_max_messages amount = replicate ((pack_max_messages - amount) * message_size) 0

-- The loop over a pack of `amount` messages fills the front of the room for the largest pack.
copy_pack :
    (head : List ℕ) (most amount : ℕ) (pack_bytes : List ℕ)
    → amount ≤ most
    → length pack_bytes ≡ 3 + most * message_size
    → copy_at
        (head ++ replicate (3 + most * message_size) 0)
        (length head)
        (take (3 + amount * message_size) pack_bytes)
      ≡ head ++ (take (3 + amount * message_size) pack_bytes ++ unused most amount)
copy_pack head most amount pack_bytes fits len =
    ap (λ k. copy_at (head ++ k) (length head) (take (3 + amount * 25) pack_bytes)) room
    ∙ copy_at-append head (replicate (3 + amount * 25) 0) (take (3 + amount * 25) pack_bytes)
        (unused most amount)
        (omega (
          arith,
          length-take (3 + amount * 25) pack_bytes,
          length-replicate {A = ℕ} (3 + amount * 25) 0,
        ))
  where
    room : replicate {A = ℕ} (3 + most * 25) 0 ≡ replicate (3 + amount * 25) 0 ++ unused most amount
    room =
        ap (λ k. replicate {A = ℕ} k 0) (omega arith)
        ∙ replicate-add (3 + amount * 25) ((most - amount) * 25) 0

-- For a pack of `amount` messages in memory for `pack_max_messages`, at most 9: the parameter bytes
-- are the handle, 3, 1, the lengths 9 + 25 * amount and 8 + 25 * amount, which do not wrap, the
-- AD type, the UUID, the code, the counter, then the pack's 3 bytes of header and its messages, and
-- zeros for the messages that are not used.
pub extended_advertising_data_pack_buf_lem :
    (pack_max_messages handle amount : ℕ) (pack_bytes : List ℕ) (counter : ℕ)
    → amount ≤ pack_max_messages
    → pack_max_messages ≤ 9
    → length pack_bytes ≡ 3 + pack_max_messages * message_size
    → extended_advertising_data_pack_buf pack_max_messages handle amount pack_bytes counter
      ≡ (handle
          ∷ 3
          ∷ 1
          ∷ (9 + amount * 25)
          ∷ (8 + amount * 25)
          ∷ 0x16
          ∷ 0xFA
          ∷ 0xFF
          ∷ 0x0D
          ∷ counter
          ∷ [])
        ++ (take (3 + amount * message_size) pack_bytes ++ unused pack_max_messages amount)
unfolding extended_advertising_data_pack_buf
extended_advertising_data_pack_buf_lem most handle amount pack_bytes counter fits small len =
    copy_pack
      (handle
        ∷ 3
        ∷ 1
        ∷ ((9 + amount * 25) % 256)
        ∷ ((8 + amount * 25) % 256)
        ∷ 0x16
        ∷ 0xFA
        ∷ 0xFF
        ∷ 0x0D
        ∷ counter
        ∷ [])
      most amount pack_bytes fits len
    ∙ ap₂
        (λ m n.
          (handle ∷ 3 ∷ 1 ∷ m ∷ n ∷ 0x16 ∷ 0xFA ∷ 0xFF ∷ 0x0D ∷ counter ∷ [])
          ++ (take (3 + amount * 25) pack_bytes ++ unused most amount))
        (let e : (9 + amount * 25) % 256 ≡ 9 + amount * 25 = omega arith in e)
        (let e : (8 + amount * 25) % 256 ≡ 8 + amount * 25 = omega arith in e)
