-- ===== src/Hostapd/Appending.antt =====
-- The loops that add the arguments to a text.
use mathlib.Core.List.{append_assoc, append-nil}
use transmitter_linux.Common.{
  ℕ, ◌+◌, ◌-◌, ◌<◌, ◌≡◌, sym, ◌∙◌, ap, Bool, true, Option, none, some, List, [], ◌∷◌, ◌++◌,
  if◌then◌else◌, codes, length, length-append, arith, Bool-cases, inl, inr,
}
use transmitter_linux.Hostapd.Commands.{append_args, snprintf_error}

-- The arguments, each behind a blank.
pub spaced : List (List ℕ) → List ℕ
spaced [] = []
spaced (a ∷ rest) = codes " " ++ (a ++ spaced rest)

-- What one test of the whole text would give.
abbrev pub fitted : ℕ → List ℕ → Option (List ℕ)
fitted size text = if snprintf_error size text then none else some text

fitted-snprintf_error :
    (size : ℕ) (text : List ℕ) → snprintf_error size text ≡ true → fitted size text ≡ none
fitted-snprintf_error size text e = rw e

fits_lem : (size : ℕ) (text : List ℕ) → length text < size → some text ≡ fitted size text
fits_lem size text fits = ground arith

-- For every text that fits the buffer and all arguments: the loop that adds the arguments one by
-- one, and tests each against the room that is left, gives up exactly if the whole text does not
-- fit with its NUL, and otherwise makes the text with every argument behind a blank.
pub append_args_lem :
    (size : ℕ) (text : List ℕ) (args : List (List ℕ))
    → length text < size
    → append_args size text args ≡ fitted size (text ++ spaced args)
unfolding append_args spaced
append_args_lem size text [] fits =
    fits_lem size text fits ∙ ap (fitted size) (sym (append-nil text))
append_args_lem size text (a ∷ rest) fits = elim (Bool-cases full) [
  | inl e ↦ rw e (sym (fitted-snprintf_error size whole (ground (arith, e, room, all))))
  | inr e ↦ rw e (
      append_args_lem size (text ++ (codes " " ++ a)) rest (ground (arith, e, room))
      ∙ ap (fitted size) (append_assoc text (codes " " ++ a) (spaced rest)))
]
  where
    full : Bool
    full = snprintf_error (size - length text) (codes " " ++ a)

    whole : List ℕ
    whole = text ++ (codes " " ++ (a ++ spaced rest))

    room : length (text ++ (codes " " ++ a)) ≡ length text + (1 + length a)
    room = length-append text (codes " " ++ a) ∙ omega arith

    all : length whole ≡ length text + (1 + (length a + length (spaced rest)))
    all =
        length-append text (codes " " ++ (a ++ spaced rest))
        ∙ omega (arith, length-append a (spaced rest))
