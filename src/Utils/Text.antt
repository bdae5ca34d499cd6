-- ===== src/Utils/Text.antt =====
-- A `char` array as the text up to its NUL, and bytes written into it as hexadecimal text.
use mathlib.Core.List.{append_assoc}
use transmitter_linux.Common.{
  ℕ, zero, suc, ◌+◌, ◌*◌, ◌<◌, ◌≡◌, refl, sym, ◌∙◌, ap, List, [], ◌∷◌, ◌++◌, length, replicate,
  arith, length-replicate, replicate-add,
}
use transmitter_linux.Utils.Ascii.{write_hex}
use transmitter_linux.Utils.Hex.{to_hex, write_hex-append}

-- The text before the NUL that an array holds.
unfoldable pub c_string : List ℕ → List ℕ
c_string [] = []
c_string (c ∷ cs) = elim c [ zero ↦ [] | suc n ↦ suc n ∷ c_string cs ]

abbrev pub NonZero : List ℕ → Type 0
NonZero [] = Unit
NonZero (c ∷ cs) = (0 < c) × NonZero cs

pub c_string-append : (s rest : List ℕ) → NonZero s → c_string (s ++ (0 ∷ rest)) ≡ s
unfolding c_string
c_string-append [] rest h = refl
c_string-append (zero ∷ s) rest h = absurd (omega arith)
c_string-append (suc c ∷ s) rest h = ap (λ l. suc c ∷ l) (c_string-append s rest h.1)

pub to_hex-NonZero : (bs : List ℕ) → NonZero (to_hex bs)
unfolding to_hex
to_hex-NonZero [] = tt
to_hex-NonZero (b ∷ bs) = (ground arith, (ground arith, to_hex-NonZero bs))

pub NonZero-append : (s t : List ℕ) → NonZero s → NonZero t → NonZero (s ++ t)
NonZero-append [] t h k = k
NonZero-append (c ∷ s) t h k = (h.0, NonZero-append s t h.1 k)

-- Bytes written as text over the zeros behind a header, read up to the NUL.
pub written_text :
    (head bytes : List ℕ) (n k : ℕ)
    → n ≡ 2 * length bytes
    → NonZero head
    → c_string (write_hex (head ++ replicate (n + suc k) 0) (length head) bytes)
      ≡ head ++ to_hex bytes
written_text head bytes n k e h =
    ap (λ z. c_string (write_hex (head ++ z) (length head) bytes)) (replicate-add n (suc k) 0)
    ∙ ap c_string
        (write_hex-append head (replicate n 0) bytes (0 ∷ replicate k 0) (length-replicate n 0 ∙ e))
    ∙ ap c_string (sym (append_assoc head (to_hex bytes) (0 ∷ replicate k 0)))
    ∙ c_string-append (head ++ to_hex bytes) (replicate k 0)
        (NonZero-append head (to_hex bytes) h (to_hex-NonZero bytes))
