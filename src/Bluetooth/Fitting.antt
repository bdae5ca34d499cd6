-- ===== src/Bluetooth/Fitting.antt =====
-- That what bluetooth.c hands to `hci_send_cmd` has the types of that call: the parameters are
-- bytes, and their number is a byte.
use Prim.Native.Nat.{bit_or}
use transmitter_linux.Common.{
  ==_iff, ◌==◌, Bool-cases, inl, inr, ltb, ℕ, zero, suc, ◌+◌, ◌*◌, ◌%◌, ◌<◌, ◌≡◌, refl, ◌∙◌, Bool,
  true, false, ◌&&◌, List, [], ◌∷◌, ◌++◌, length, take, set, copy_at, replicate, if◌then◌else◌,
  arith, length-set, length-append, length-replicate,
}
use transmitter_linux.Machine.{Env}
use transmitter_linux.Utils.{Config}
use transmitter_linux.Bluetooth.Hci.{generate_random_mac_address}
use transmitter_linux.Bluetooth.Buffers.{
  message_size, random_address_buf, advertising_parameters_buf, extended_advertising_parameters_buf,
  advertising_data_buf, advertising_set_random_address_buf, extended_advertising_data_buf,
  extended_advertising_data_pack_buf, extended_advertising_enable_buf,
}

abbrev pub IsBytes : List ℕ → Type 0
IsBytes [] = Unit
IsBytes (b ∷ bs) = (b < 256) × IsBytes bs

IsBytes-take : (n : ℕ) (bs : List ℕ) → IsBytes bs → IsBytes (take n bs)
IsBytes-take zero bs h = tt
IsBytes-take (suc n) [] h = tt
IsBytes-take (suc n) (b ∷ bs) h = (h.0, IsBytes-take n bs h.1)

IsBytes-set : (bs : List ℕ) (i v : ℕ) → IsBytes bs → v < 256 → IsBytes (set bs i v)
IsBytes-set [] i v h k = tt
IsBytes-set (b ∷ bs) zero v h k = (k, h.1)
IsBytes-set (b ∷ bs) (suc i) v h k = (h.0, IsBytes-set bs i v h.1 k)

IsBytes-append : (bs cs : List ℕ) → IsBytes bs → IsBytes cs → IsBytes (bs ++ cs)
IsBytes-append [] cs h k = k
IsBytes-append (b ∷ bs) cs h k = (h.0, IsBytes-append bs cs h.1 k)

IsBytes-replicate : (n : ℕ) → IsBytes (replicate n 0)
IsBytes-replicate zero = tt
IsBytes-replicate (suc n) = (omega arith, IsBytes-replicate n)

-- A buffer of bytes, and how many it has.
pub record Buffer (n : ℕ) (bs : List ℕ) : Type 0 where
  pub bytes : IsBytes bs
  pub size : length bs ≡ n

Buffer-set : {n : ℕ} {bs : List ℕ} (i v : ℕ) → Buffer n bs → v < 256 → Buffer n (set bs i v)
Buffer-set {bs = bs} i v b low = record {
  bytes = IsBytes-set bs i v b.bytes low;
  size = length-set bs i v ∙ b.size;
}

Buffer-copy_at :
    {n : ℕ} (dst : List ℕ) (at : ℕ) (src : List ℕ)
    → Buffer n dst
    → IsBytes src
    → Buffer n (copy_at dst at src)
Buffer-copy_at dst at [] b h = b
Buffer-copy_at dst at (x ∷ xs) b h =
    Buffer-copy_at (set dst at x) (suc at) xs (Buffer-set at x b h.0) h.1

Buffer-header :
    {n : ℕ} (head : List ℕ) (k : ℕ)
    → IsBytes head
    → length head + k ≡ n
    → Buffer n (head ++ replicate k 0)
Buffer-header head k h e = record {
  bytes = IsBytes-append head (replicate k 0) h (IsBytes-replicate k);
  size = length-append head (replicate k 0) ∙ omega (arith, e, length-replicate {A = ℕ} k 0);
}

Buffer-if :
    {n : ℕ} (b : Bool) {bs cs : List ℕ}
    → Buffer n bs
    → Buffer n cs
    → Buffer n (if b then bs else cs)
Buffer-if true p q = p
Buffer-if false p q = q

-- The constant bytes in front of a message, and of a message or a pack with a handle.
abbrev legacy_header : List ℕ
legacy_header = 31 ∷ 30 ∷ 22 ∷ 250 ∷ 255 ∷ 13 ∷ 0 ∷ []

abbrev extended_header : List ℕ
extended_header = 0 ∷ 3 ∷ 1 ∷ 31 ∷ 30 ∷ 22 ∷ 250 ∷ 255 ∷ 13 ∷ 0 ∷ []

pub random_address_buf-Buffer : (mac : List ℕ) → IsBytes mac → Buffer 6 (random_address_buf mac)
unfolding random_address_buf
random_address_buf-Buffer mac h =
    Buffer-copy_at (replicate 6 0) 0 (take 6 mac) (Buffer-header [] 6 tt refl)
      (IsBytes-take 6 mac h)

pub advertising_parameters_buf-Buffer : (ms : ℕ) → Buffer 15 (advertising_parameters_buf ms)
unfolding advertising_parameters_buf
advertising_parameters_buf-Buffer ms = record { bytes = ground arith; size = refl }

pub extended_advertising_parameters_buf-Buffer :
    (handle ms : ℕ) (long_range : Bool)
    → handle < 256
    → Buffer 25 (extended_advertising_parameters_buf handle ms long_range)
unfolding extended_advertising_parameters_buf
extended_advertising_parameters_buf-Buffer handle ms true h = record {
  bytes = ground arith;
  size = refl;
}
extended_advertising_parameters_buf-Buffer handle ms false h = record {
  bytes = ground arith;
  size = refl;
}

pub advertising_data_buf-Buffer :
    (raw_data : List ℕ) (counter : ℕ)
    → IsBytes raw_data
    → counter < 256
    → Buffer 32 (advertising_data_buf raw_data counter)
unfolding advertising_data_buf
advertising_data_buf-Buffer raw_data counter h low =
    Buffer-copy_at _ 7 (take message_size raw_data)
      (Buffer-set 6 counter (Buffer-header legacy_header message_size (ground arith) refl) low)
      (IsBytes-take message_size raw_data h)

pub extended_advertising_data_buf-Buffer :
    (handle : ℕ) (raw_data : List ℕ) (counter : ℕ)
    → handle < 256
    → IsBytes raw_data
    → counter < 256
    → Buffer 35 (extended_advertising_data_buf handle raw_data counter)
unfolding extended_advertising_data_buf
extended_advertising_data_buf-Buffer handle raw_data counter few h low =
    Buffer-copy_at _ 10 (take message_size raw_data)
      (Buffer-set 9 counter
        (Buffer-set 0 handle (Buffer-header extended_header message_size (ground arith) refl) few)
        low)
      (IsBytes-take message_size raw_data h)

pub advertising_set_random_address_buf-Buffer :
    (handle : ℕ) (mac : List ℕ)
    → handle < 256
    → IsBytes mac
    → Buffer 7 (advertising_set_random_address_buf handle mac)
unfolding advertising_set_random_address_buf
advertising_set_random_address_buf-Buffer handle mac few h =
    Buffer-copy_at _ 1 (take 6 mac) (Buffer-set 0 handle (Buffer-header [] 7 tt refl) few)
      (IsBytes-take 6 mac h)

pub extended_advertising_data_pack_buf-Buffer :
    (most handle amount : ℕ) (pack_bytes : List ℕ) (counter : ℕ)
    → handle < 256
    → IsBytes pack_bytes
    → counter < 256
    → Buffer
        (13 + most * message_size)
        (extended_advertising_data_pack_buf most handle amount pack_bytes counter)
unfolding extended_advertising_data_pack_buf
extended_advertising_data_pack_buf-Buffer most handle amount pack_bytes counter few h low =
    Buffer-copy_at _ 10 (take (3 + amount * message_size) pack_bytes)
      (Buffer-set 4 ((8 + amount * message_size) % 256)
        (Buffer-set 3 ((9 + amount * message_size) % 256)
          (Buffer-set 9 counter
            (Buffer-set 0 handle
              (Buffer-header extended_header (3 + most * message_size) (ground arith) (omega arith))
              few)
            low)
          (omega arith))
        (omega arith))
      (IsBytes-take (3 + amount * message_size) pack_bytes h)

pub extended_advertising_enable_buf-Buffer :
    (config : Config)
    → config.handle_bt4 < 256
    → config.handle_bt5 < 256
    → Buffer 8 (extended_advertising_enable_buf config)
unfolding extended_advertising_enable_buf
extended_advertising_enable_buf-Buffer config h k =
    Buffer-if (config.use_bt4 && config.use_bt5) (record { bytes = ground arith; size = refl })
      (Buffer-if config.use_bt4 (record { bytes = ground arith; size = refl })
        (Buffer-if config.use_bt5 (record { bytes = ground arith; size = refl })
          (record { bytes = ground arith; size = refl })))

-- Whether the first byte of an address, made from each of the first numbers, is a byte.
first_bytes : ℕ → Bool
first_bytes zero = true
first_bytes (suc k) = first_bytes k && ltb (bit_or k 0xC0) 256

first_bytes-lt : (bound byte : ℕ) → byte < bound → first_bytes bound ≡ true → bit_or byte 0xC0 < 256
unfolding first_bytes
first_bytes-lt zero byte below tested = absurd (omega arith)
first_bytes-lt (suc k) byte below tested = elim (Bool-cases (byte == k)) [
  | inl e ↦ rw ((==_iff byte k).0 e) (ground (arith, tested))
  | inr e ↦ first_bytes-lt k byte (ground (arith, e, below)) (ground (arith, tested))
]

or_byte : (x : ℕ) → x < 256 → bit_or x 0xC0 < 256
unfolding first_bytes
or_byte x below = first_bytes-lt 256 x below refl

-- The generated address has bytes only.
pub generate_random_mac_address-IsBytes : (env : Env) → IsBytes (generate_random_mac_address env)
unfolding generate_random_mac_address
generate_random_mac_address-IsBytes env = (or_byte (env.rand 0 % 255) (omega arith), ground arith)
