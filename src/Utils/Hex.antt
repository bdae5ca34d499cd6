-- ===== src/Utils/Hex.antt =====
-- What `uchar_to_ascii` writes is the hexadecimal text of its bytes.
use transmitter_linux.Common.{
  ℕ, suc, ◌+◌, ◌-◌, ◌*◌, ◌/◌, ◌%◌, ◌<◌, ◌≡◌, refl, ◌∙◌, ap, ◌&&◌, Option, none, some, List, [], ◌∷◌,
  ◌++◌, ltb, leb, set, copy_at, copy_at-append, length, if◌then◌else◌, arith,
}
use transmitter_linux.Utils.Ascii.{uchar_to_ascii, write_hex}

-- Readers of hexadecimal text, as hostapd reads a `vendor_elements` value: digits of both cases.
pub digit_value : ℕ → Option ℕ
digit_value c =
    if leb b'0' c && leb c b'9'
    then some (c - b'0')
    else if leb b'A' c && leb c b'F'
    then some (c - b'A' + 10)
    else if leb b'a' c && leb c b'f'
    then some (c - b'a' + 10)
    else none

abbrev join : Option ℕ → Option ℕ → Option (List ℕ) → Option (List ℕ)
join (some h) (some l) (some bs) = some ((h * 16 + l) ∷ bs)
join _ _ _ = none

unfoldable pub parse_hex : List ℕ → Option (List ℕ)
unfolding digit_value
parse_hex [] = some []
parse_hex (h ∷ []) = none
parse_hex (h ∷ l ∷ cs) = join (digit_value h) (digit_value l) (parse_hex cs)

-- The two characters that one call writes.
abbrev digit : ℕ → ℕ
digit n = if ltb n 10 then 48 + n else 65 + n - 10

unfoldable pub to_hex : List ℕ → List ℕ
to_hex [] = []
to_hex (b ∷ bs) = digit (b / 16 % 16) ∷ digit (b % 16) ∷ to_hex bs

-- Every item of the list is a byte.
abbrev pub Bytes : List ℕ → Type 0
Bytes [] = Unit
Bytes (b ∷ bs) = (b < 256) × Bytes bs

digit_value-digit : (n : ℕ) → n < 16 → digit_value (digit n) ≡ some n
unfolding digit_value
digit_value-digit n h = ground arith

-- Reading the text of a list of bytes gives the bytes back.
pub parse_hex-to_hex : (bs : List ℕ) → Bytes bs → parse_hex (to_hex bs) ≡ some bs
unfolding parse_hex to_hex
parse_hex-to_hex [] h = refl
parse_hex-to_hex (b ∷ bs) h =
    rw
      (
        digit_value-digit (b / 16 % 16) (omega arith),
        digit_value-digit (b % 16) (omega arith),
        parse_hex-to_hex bs h.1,
      )
      (ap (λ k. some (k ∷ bs)) (omega arith))

pub length-to_hex : (bs : List ℕ) → length (to_hex bs) ≡ 2 * length bs
unfolding to_hex
length-to_hex [] = refl
length-to_hex (b ∷ bs) = omega (arith, length-to_hex bs)

write_hex-copy_at :
    (mem : List ℕ) (at : ℕ) (bs : List ℕ) → write_hex mem at bs ≡ copy_at mem at (to_hex bs)
unfolding write_hex to_hex
write_hex-copy_at mem at [] = refl
write_hex-copy_at mem at (b ∷ bs) =
    write_hex-copy_at (uchar_to_ascii (some at) b mem) (at + 2) bs
    ∙ ap
        (λ k.
          copy_at (set (set mem at (digit (b / 16 % 16))) (suc at) (digit (b % 16))) k (to_hex bs))
        (omega arith)

-- The loop that writes bytes as text behind a header replaces what stood there.
pub write_hex-append :
    (head old : List ℕ) (bs : List ℕ) (rest : List ℕ)
    → length old ≡ 2 * length bs
    → write_hex (head ++ (old ++ rest)) (length head) bs ≡ head ++ (to_hex bs ++ rest)
write_hex-append head old bs rest h =
    write_hex-copy_at _ _ bs
    ∙ copy_at-append head old (to_hex bs) rest (omega (arith, length-to_hex bs))
