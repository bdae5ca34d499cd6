-- ===== src/Bluetooth/AddAdv.antt =====
-- The text that `send_bluetooth_message_btmgmt` gives to the shell.
use mathlib.Core.List.{append_assoc}
use transmitter_linux.Common.{
  ℕ, ◌<◌, ◌≡◌, refl, sym, ◌∙◌, ap, List, [], ◌∷◌, ◌++◌, some, codes, length, take, drop, replicate,
  arith, take_all, copy_at, copy_at-append, length-append, take-append, drop-append,
}
use transmitter_linux.Machine.{World, done, shell}
use transmitter_linux.Utils.Hex.{
  Bytes, parse_hex, to_hex, parse_hex-to_hex, write_hex-append, length-to_hex,
}
use transmitter_linux.Utils.Text.{c_string, c_string-append, to_hex-NonZero, NonZero-append}
use transmitter_linux.Utils.{write_hex}
use transmitter_linux.Bluetooth.Buffers.{message_size}
use transmitter_linux.Bluetooth.Btmgmt.{btmgmt_data, send_bluetooth_message_btmgmt}

-- The advertising data: length, type of service data, UUID, application code, counter, message.
abbrev service_data : List ℕ → ℕ → List ℕ
service_data encoded counter = 0x1E ∷ 0x16 ∷ 0xFA ∷ 0xFF ∷ 0x0D ∷ counter ∷ encoded

abbrev add_adv : List ℕ
add_adv = codes "btmgmt add-adv -d "

btmgmt_data-text :
    (encoded : List ℕ) (counter : ℕ)
    → length encoded ≡ message_size
    → c_string (btmgmt_data encoded counter)
      ≡ add_adv ++ (to_hex (service_data encoded counter) ++ codes " 1")
unfolding btmgmt_data to_hex
btmgmt_data-text encoded counter h =
    ap (λ e. c_string (finish (write_hex (head ++ replicate 53 0) 30 e) 80)) all
    ∙ ap (λ m. c_string (finish m 80))
        (write_hex-append head (replicate 50 0) encoded (replicate 3 0) (omega arith))
    ∙ ap (λ m. c_string (finish m 80)) (sym (append_assoc head (to_hex encoded) (replicate 3 0)))
    ∙ ap (λ k. c_string (finish (text ++ replicate 3 0) k)) (sym at_end)
    ∙ ap c_string (copy_at-append text (replicate 3 0) (codes " 1" ++ (0 ∷ [])) [] refl)
    ∙ ap c_string (sym (append_assoc text (codes " 1") (0 ∷ [])))
    ∙ c_string-append (text ++ codes " 1") [] (
        NonZero-append text (codes " 1")
          (NonZero-append head (to_hex encoded)
            (NonZero-append add_adv (to_hex prefix) (omega arith) (to_hex-NonZero prefix))
            (to_hex-NonZero encoded))
          (omega arith))
    ∙ append_assoc head (to_hex encoded) (codes " 1")
  where
    prefix : List ℕ
    prefix = service_data [] counter

    head : List ℕ
    head = add_adv ++ to_hex prefix

    text : List ℕ
    text = head ++ to_hex encoded

    finish : List ℕ → ℕ → List ℕ
    finish m at = copy_at m at (codes " 1" ++ (0 ∷ []))

    all : take message_size encoded ≡ encoded
    all = take_all message_size encoded (omega arith)

    at_end : length text ≡ 80
    at_end = length-append head (to_hex encoded) ∙ omega (arith, length-to_hex encoded)

-- For a message of 25 bytes and a counter that is a byte: `send_bluetooth_message_btmgmt` returns
-- after two shell commands, the first of which removes all instances. The second is
-- "btmgmt add-adv -d " with 62 digits that read, as hexadecimal, as the length 0x1E, the type
-- and UUID 16 FA FF, the application code 0D, the counter and the message, byte for byte, and
-- then " 1".
pub send_bluetooth_message_btmgmt-parse :
    (encoded : List ℕ) (counter : ℕ) (w : World)
    → length encoded ≡ message_size
    → Bytes encoded
    → counter < 256
    → let text = c_string (btmgmt_data encoded counter) in
      (send_bluetooth_message_btmgmt encoded counter w
        ≡ done tt (record w {
          out = (w.out ++ (shell (codes "btmgmt rm-adv 0") ∷ [])) ++ (shell text ∷ []);
        }))
      × (take 18 text ≡ codes "btmgmt add-adv -d ")
      × (parse_hex (take 62 (drop 18 text))
          ≡ some (0x1E ∷ 0x16 ∷ 0xFA ∷ 0xFF ∷ 0x0D ∷ counter ∷ encoded))
      × (drop 80 text ≡ codes " 1")
unfolding send_bluetooth_message_btmgmt
send_bluetooth_message_btmgmt-parse encoded counter w h bytes small =
    rw (btmgmt_data-text encoded counter h) (
      refl,
      refl,
      ap (λ n. parse_hex (take n (digits ++ codes " 1"))) (sym count)
          ∙ ap parse_hex (take-append digits (codes " 1"))
          ∙ parse_hex-to_hex (service_data encoded counter) (
            omega arith,
            (omega arith, (omega arith, (omega arith, (omega arith, (small, bytes))))),
          ),
      ap (λ n. drop n (digits ++ codes " 1")) (sym count) ∙ drop-append digits (codes " 1"),
    )
  where
    digits : List ℕ
    digits = to_hex (service_data encoded counter)

    count : length digits ≡ 62
    count = length-to_hex (service_data encoded counter) ∙ omega arith
