-- ===== src/Utils/Ascii.antt =====
-- `config_data` of utils.h, and `uchar_to_ascii` of utils.c.
use transmitter_linux.Common.{
  ℕ, suc, ◌+◌, ◌-◌, ◌/◌, ◌%◌, Bool, Option, none, some, List, [], ◌∷◌, ltb, set, if◌then◌else◌,
}

-- `msg_counters`: a field for each index of `ODID_messageCounterType` that the sources use.
pub record Counters : Type 0 where
  pub basic_id : ℕ
  pub location : ℕ
  pub auth : ℕ
  pub self_id : ℕ
  pub system : ℕ
  pub operator_id : ℕ
  pub packed : ℕ

pub record Config : Type 0 where
  pub use_beacon : Bool
  pub use_btl : Bool
  pub use_bt4 : Bool
  pub use_bt5 : Bool
  pub use_gps : Bool
  pub handle_bt4 : ℕ
  pub handle_bt5 : ℕ
  pub use_packs : Bool
  pub msg_counters : Counters

-- `x++` on a `uint8_t`
abbrev pub increment : ℕ → ℕ
increment n = (n + 1) % 256

ascii_digit : ℕ → ℕ
ascii_digit n = if ltb n 0xA then 0x30 + n else 0x41 + n - 0xA

-- The memory after the call, with `out` an index into it (`none` for a null pointer).
unfoldable pub uchar_to_ascii : Option ℕ → ℕ → List ℕ → List ℕ
unfolding ascii_digit
uchar_to_ascii none byte mem = mem
uchar_to_ascii (some out) byte mem =
    let high = byte / 16 % 16 in
    let low = byte % 16 in set (set mem out (ascii_digit high)) (suc out) (ascii_digit low)

-- `for (i = 0; i < n; i++) uchar_to_ascii(&data[2*(header + i)], bytes[i]);` with `at` for
-- `2*(header + i)`
unfoldable pub write_hex : List ℕ → ℕ → List ℕ → List ℕ
unfolding uchar_to_ascii
write_hex mem at [] = mem
write_hex mem at (b ∷ bs) = write_hex (uchar_to_ascii (some at) b mem) (at + 2) bs
