-- ===== src/Features/Mask.antt =====
-- Which features are printed, and which bits are reported as unknown.
use native.Mathlib.Nat.{pow-suc, mul-div_cancel, div-div-eq-div-mul}
use mathlib.Core.Path.{subst}
use transmitter_linux.Common.{
  ℕ, zero, suc, ◌+◌, ◌-◌, ◌*◌, ◌/◌, ◌%◌, ◌^◌, ◌<◌, ◌≡◌, refl, ◌∙◌, ap, List, [], ◌∷◌, ◌==◌,
  if◌then◌else◌, arith, length,
}
use transmitter_linux.Features.Defs.{
  BitfieldData, features_le, test_bit, clear_bit, print_bitfield_from, print_bitfield,
}

-- The texts of the rows whose bit is set, in order.
pub named : ℕ → List BitfieldData → List (List ℕ)
named val [] = []
named val (r ∷ rows) = if test_bit val r.bit then r.str ∷ named val rows else named val rows

-- The rows are for the bits from `n` on, without gaps.
abbrev pub Consecutive : ℕ → List BitfieldData → Type 0
Consecutive n [] = Unit
Consecutive n (r ∷ rows) = (r.bit ≡ n) × Consecutive (suc n) rows

print_bitfield-named :
    (val mask : ℕ) (rows : List BitfieldData)
    → (print_bitfield_from val mask rows).1 ≡ named val rows
unfolding print_bitfield_from named
print_bitfield-named val mask [] = refl
print_bitfield-named val mask (r ∷ rows) = ground (
  arith,
  print_bitfield-named val (if test_bit val r.bit then clear_bit mask r.bit else mask) rows,
)

-- What is left of `x` when the bits below `n` are cleared.
abbrev pub above : ℕ → ℕ → ℕ
above x n = x / 2 ^ n * 2 ^ n

two-pow_pos : (n : ℕ) → 0 < 2 ^ n
two-pow_pos zero = omega arith
two-pow_pos (suc n) = omega (arith, pow-suc 2 n, two-pow_pos n)

-- One row: the bit is cleared if it is set, and was 0 if it is not.
halve : (q p : ℕ) → (if q % 2 == 1 then q * p - p else q * p) ≡ q / 2 * (p * 2)
halve q p = ground (arith, split)
  where
    split : q * p ≡ q / 2 * (p * 2) + q % 2 * p
    split = ap (λ k. k * p) (let e : q ≡ q / 2 * 2 + q % 2 = omega arith in e) ∙ omega arith

above-suc :
    (x n : ℕ) → (if test_bit x n then clear_bit (above x n) n else above x n) ≡ above x (suc n)
above-suc x n =
    rw (mul-div_cancel (x / 2 ^ n) (two-pow_pos n), pow-suc 2 n, ← div-div-eq-div-mul x (2 ^ n) 2)
      (ground (arith, halve (x / 2 ^ n) (2 ^ n)))

above-zero : (x : ℕ) → above x 0 ≡ x
above-zero x = omega arith

print_bitfield-above :
    (val n : ℕ) (rows : List BitfieldData)
    → Consecutive n rows
    → (print_bitfield_from val (above val n) rows).0 ≡ above val (n + length rows)
unfolding print_bitfield_from
print_bitfield-above val n [] h = ap (above val) (omega arith)
print_bitfield-above val n (r ∷ rows) (e, h) =
    rw (e, above-suc val n) (print_bitfield-above val (suc n) rows h ∙ ap (above val) (omega arith))

features_le-Consecutive : Consecutive 0 features_le
unfolding features_le
features_le-Consecutive = omega arith

length-features_le : length features_le ≡ 33
unfolding features_le
length-features_le = refl

print_bitfield-left :
    (val : ℕ) → (print_bitfield_from val val features_le).0 ≡ val / 2 ^ 33 * 2 ^ 33
print_bitfield-left val =
    subst (λ m. (print_bitfield_from val m features_le).0 ≡ above val 33) (above-zero val)
      (print_bitfield-above val 0 features_le features_le-Consecutive ∙ rw length-features_le)

-- For every mask, `print_bitfield` prints the texts of exactly the rows whose bit is set, in the
-- order of the table, and returns the mask with bits 0 to 32 cleared and the others unchanged.
pub print_bitfield_lem :
    (val : ℕ)
    → ((print_bitfield val features_le).1 ≡ named val features_le)
      × ((print_bitfield val features_le).0 ≡ val / 2 ^ 33 * 2 ^ 33)
unfolding print_bitfield
print_bitfield_lem val = (print_bitfield-named val val features_le, print_bitfield-left val)
