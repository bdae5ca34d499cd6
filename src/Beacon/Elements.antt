-- ===== src/Beacon/Elements.antt =====
-- The text that hostapd is given as `vendor_elements`.
use transmitter_linux.Common.{
  ℕ, zero, suc, ◌+◌, ◌-◌, ◌*◌, ◌%◌, ◌≤◌, ◌<◌, ◌≡◌, refl, ◌∙◌, ap, List, [], ◌∷◌, ◌++◌, some, codes,
  length, take, drop, replicate, arith, take_all, length-take,
}
use transmitter_linux.Utils.Hex.{Bytes, parse_hex, to_hex, parse_hex-to_hex}
use transmitter_linux.Utils.{write_hex}
use transmitter_linux.Bluetooth.Buffers.{message_size}
use transmitter_linux.Utils.Text.{c_string, to_hex-NonZero, NonZero-append, written_text}
use transmitter_linux.Beacon.Defs.{message_data, pack_data}

-- The element of one message behind its tag: length, OUI, type and counter, and the message.
abbrev pub message_element : List ℕ → ℕ → List ℕ
message_element encoded counter = 0x1E ∷ 0xFA ∷ 0x0B ∷ 0xBC ∷ 0x0D ∷ counter ∷ encoded

message_data-text :
    (encoded : List ℕ) (counter : ℕ)
    → length encoded ≡ message_size
    → c_string (message_data encoded counter)
      ≡ codes "dd" ++ to_hex (message_element encoded counter)
unfolding message_data to_hex
message_data-text encoded counter h =
    let head = codes "dd" ++ to_hex (0x1E ∷ 0xFA ∷ 0x0B ∷ 0xBC ∷ 0x0D ∷ counter ∷ []) in
    let all : take message_size encoded ≡ encoded = take_all message_size encoded (omega arith) in
    written_text head (take message_size encoded) 50 0 (omega (arith, ap length all)) (
      NonZero-append (codes "dd") (to_hex (0x1E ∷ 0xFA ∷ 0x0B ∷ 0xBC ∷ 0x0D ∷ counter ∷ []))
        (omega arith) (to_hex-NonZero (0x1E ∷ 0xFA ∷ 0x0B ∷ 0xBC ∷ 0x0D ∷ counter ∷ [])))
    ∙ ap (λ l. head ++ to_hex l) all

-- For a message of 25 bytes that are bytes, and a counter that is one: `send_beacon_message`
-- sends the tag "dd" with a text that reads, as hexadecimal, as the length 0x1E, the OUI and type
-- FA 0B BC 0D, the counter, and the message, byte for byte.
pub message_data-parse :
    (encoded : List ℕ) (counter : ℕ)
    → length encoded ≡ message_size
    → Bytes encoded
    → counter < 256
    → let text = c_string (message_data encoded counter) in
      (take 2 text ≡ codes "dd")
      × (parse_hex (drop 2 text) ≡ some (0x1E ∷ 0xFA ∷ 0x0B ∷ 0xBC ∷ 0x0D ∷ counter ∷ encoded))
message_data-parse encoded counter h bytes small = rw (message_data-text encoded counter h) (
  refl,
  parse_hex-to_hex (message_element encoded counter)
      (omega arith, (omega arith, (omega arith, (omega arith, (omega arith, (small, bytes)))))),
)

-- The element of a pack of `amount` messages, for the part of its memory that is sent.
abbrev pub pack_element : ℕ → List ℕ → ℕ → List ℕ
pack_element amount bytes counter = (8 + amount * 25) ∷ 0xFA ∷ 0x0B ∷ 0xBC ∷ 0x0D ∷ counter ∷ bytes

pack_data-text :
    (most amount : ℕ) (pack : List ℕ) (counter : ℕ)
    → amount ≤ most
    → most ≤ 9
    → length pack ≡ 3 + most * message_size
    → c_string (pack_data most amount pack counter)
      ≡ codes "dd" ++ to_hex (pack_element amount (take (3 + amount * message_size) pack) counter)
unfolding pack_data to_hex
pack_data-text most amount pack counter fits small h =
    ap (λ z. c_string (write_hex (head ++ z) 14 bytes)) room
    ∙ written_text head bytes (2 * (3 + amount * 25)) (2 * ((most - amount) * 25))
        (omega (arith, length-take (3 + amount * 25) pack))
        (NonZero-append (codes "dd") (to_hex prefix) (omega arith) (to_hex-NonZero prefix))
    ∙ ap (λ len. codes "dd" ++ to_hex (len ∷ 0xFA ∷ 0x0B ∷ 0xBC ∷ 0x0D ∷ counter ∷ bytes))
        (let e : (8 + amount * 25) % 256 ≡ 8 + amount * 25 = omega arith in e)
  where
    bytes : List ℕ
    bytes = take (3 + amount * 25) pack

    prefix : List ℕ
    prefix = ((8 + amount * 25) % 256) ∷ 0xFA ∷ 0x0B ∷ 0xBC ∷ 0x0D ∷ counter ∷ []

    head : List ℕ
    head = codes "dd" ++ to_hex prefix

    room :
        replicate {A = ℕ} (2 * (3 + most * 25) + 1) 0
        ≡ replicate (2 * (3 + amount * 25) + suc (2 * ((most - amount) * 25))) 0
    room = ap (λ k. replicate {A = ℕ} k 0) (omega arith)

Bytes-take : (n : ℕ) (bs : List ℕ) → Bytes bs → Bytes (take n bs)
Bytes-take zero bs h = tt
Bytes-take (suc n) [] h = tt
Bytes-take (suc n) (b ∷ bs) h = (h.0, Bytes-take n bs h.1)

-- For a pack of `amount` messages in memory for `most`, at most 9, that holds bytes, and a counter
-- that is a byte: the text that `send_beacon_message_pack` sends is the tag "dd" and, as
-- hexadecimal, the length of all that follows it, the OUI and type FA 0B BC 0D, the counter,
-- and the header and the `amount` messages of the pack, byte for byte.
pub pack_data-parse :
    (most amount : ℕ) (pack : List ℕ) (counter : ℕ)
    → amount ≤ most
    → most ≤ 9
    → length pack ≡ 3 + most * message_size
    → Bytes pack
    → counter < 256
    → let text = c_string (pack_data most amount pack counter) in
      let sent = take (3 + amount * message_size) pack in
      (take 2 text ≡ codes "dd")
      × (parse_hex (drop 2 text)
          ≡ some ((5 + length sent) ∷ 0xFA ∷ 0x0B ∷ 0xBC ∷ 0x0D ∷ counter ∷ sent))
pack_data-parse most amount pack counter fits small h bytes byte =
    let sent = take (3 + amount * 25) pack in
    let len : 8 + amount * 25 ≡ 5 + length sent =
      omega (arith, length-take (3 + amount * 25) pack) in
    rw (pack_data-text most amount pack counter fits small h) (
      refl,
      parse_hex-to_hex (pack_element amount sent counter) (
        omega arith,
        (
          omega arith,
          (
            omega arith,
            (omega arith, (omega arith, (byte, Bytes-take (3 + amount * 25) pack bytes))),
          ),
        ),
      )
          ∙ ap (λ k. some (k ∷ 0xFA ∷ 0x0B ∷ 0xBC ∷ 0x0D ∷ counter ∷ sent)) len,
    )
