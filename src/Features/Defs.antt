-- ===== src/Features/Defs.antt =====
-- The feature table, `print_bitfield` and `print_bt_le_features`. A printed line is its text
-- here; Colors has the indentation and the colours of the print macros.
use Prim.Native.Nat.{bit_or}
use transmitter_linux.Common.{
  ℕ, suc, ◌-◌, ◌*◌, ◌/◌, ◌%◌, ◌^◌, Bool, not, List, [], ◌∷◌, ◌==◌, if◌then◌else◌, codes, take,
}
use transmitter_linux.Machine.{M, ◌>>◌, skip, when, say, feature_bytes, feature, unknown_features}

-- `struct bitfield_data`
pub record BitfieldData : Type 0 where
  pub bit : ℕ
  pub str : List ℕ

row : ℕ → List ℕ → BitfieldData
row b s = record { bit = b; str = s }

-- The rows in the source's order; the end marker is the end of the list.
unfoldable pub features_le : List BitfieldData
unfolding row
features_le =
    row 0 (codes "LE Encryption")
    ∷ row 1 (codes "Connection Parameter Request Procedure")
    ∷ row 2 (codes "Extended Reject Indication")
    ∷ row 3 (codes "Slave-initiated Features Exchange")
    ∷ row 4 (codes "LE Ping")
    ∷ row 5 (codes "LE Data Packet Length Extension")
    ∷ row 6 (codes "LL Privacy")
    ∷ row 7 (codes "Extended Scanner Filter Policies")
    ∷ row 8 (codes "LE 2M PHY")
    ∷ row 9 (codes "Stable Modulation Index - Transmitter")
    ∷ row 10 (codes "Stable Modulation Index - Receiver")
    ∷ row 11 (codes "LE Coded PHY")
    ∷ row 12 (codes "LE Extended Advertising")
    ∷ row 13 (codes "LE Periodic Advertising")
    ∷ row 14 (codes "Channel Selection Algorithm #2")
    ∷ row 15 (codes "LE Power Class 1")
    ∷ row 16 (codes "Minimum Number of Used Channels Procedure")
    ∷ row 17 (codes "Connection CTE Request")
    ∷ row 18 (codes "Connection CTE Response")
    ∷ row 19 (codes "Connectionless CTE Transmitter")
    ∷ row 20 (codes "Connectionless CTE Receiver")
    ∷ row 21 (codes "Antenna Switching During CTE Transmission (AoD)")
    ∷ row 22 (codes "Antenna Switching During CTE Reception (AoA)")
    ∷ row 23 (codes "Receiving Constant Tone Extensions")
    ∷ row 24 (codes "Periodic Advertising Sync Transfer - Sender")
    ∷ row 25 (codes "Periodic Advertising Sync Transfer - Recipient")
    ∷ row 26 (codes "Sleep Clock Accuracy Updates")
    ∷ row 27 (codes "Remote Public Key Validation")
    ∷ row 28 (codes "Connected Isochronous Stream - Master")
    ∷ row 29 (codes "Connected Isochronous Stream - Slave")
    ∷ row 30 (codes "Isochronous Broadcaster")
    ∷ row 31 (codes "Synchronized Receiver")
    ∷ row 32 (codes "Isochronous Channels (Host Support)")
    ∷ []

-- `x & (1 << b)`, as a truth value
abbrev pub test_bit : ℕ → ℕ → Bool
test_bit x b = x / 2 ^ b % 2 == 1

-- `x & ~(1 << b)`
abbrev pub clear_bit : ℕ → ℕ → ℕ
clear_bit x b = if test_bit x b then x - 2 ^ b else x

-- The loop over the table, from the mask so far: the mask that is left, and the texts printed.
unfoldable pub print_bitfield_from : ℕ → ℕ → List BitfieldData → ℕ × List (List ℕ)
print_bitfield_from val mask [] = (mask, [])
print_bitfield_from val mask (r ∷ rows) =
    let (left, printed) =
      print_bitfield_from val (if test_bit val r.bit then clear_bit mask r.bit else mask) rows in
    (left, if test_bit val r.bit then r.str ∷ printed else printed)

unfoldable pub print_bitfield : ℕ → List BitfieldData → ℕ × List (List ℕ)
unfolding print_bitfield_from
print_bitfield val table = print_bitfield_from val val table

-- `for (i …) features |= ((uint64_t) features_array[i]) << (i * 8);`
unfoldable pub collect_features : ℕ → ℕ → List ℕ → ℕ
collect_features i features [] = features
collect_features i features (b ∷ bs) =
    collect_features (suc i) (bit_or features (b * 2 ^ (i * 8) % 2 ^ 64)) bs

unfoldable pub say_features : List (List ℕ) → M (Unit {0})
say_features [] = skip
say_features (s ∷ rest) = say (feature s) >> say_features rest

-- The array holds the eight bytes that the loop reads.
unfoldable pub print_bt_le_features : List ℕ → M (Unit {0})
unfolding collect_features print_bitfield features_le say_features
print_bt_le_features features_array = do
  let bytes = take 8 features_array
  say (feature_bytes bytes)
  let result = print_bitfield (collect_features 0 0 bytes) features_le
  say_features result.1
  when (not (result.0 == 0)) (say (unknown_features result.0))
