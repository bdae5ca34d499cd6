-- ===== src/Hostapd/Prompt/Word.antt =====
-- Which word the prompt of ap_interface.c completes: the copy of the command that
-- `hostapd_cli_edit_completion_cb` makes.
use mathlib.Core.List.{append_assoc}
use transmitter_linux.Common.{
  ℕ, zero, suc, ◌+◌, ◌-◌, ◌<◌, ◌≤◌, ◌≡◌, refl, sym, ap, ◌∙◌, true, Option, none, some, List, [],
  ◌∷◌, ◌++◌, ltb, leb, length, take, drop, set, copy_at, length-append, length-take, length-drop,
  Bool-cases, inl, inr, if◌then◌else◌, copy_at-append, arith,
}
use transmitter_linux.Utils.Text.{c_string, NonZero}
use transmitter_linux.Hostapd.Table.{hostapd_cli_commands}
use transmitter_linux.Hostapd.Noticing.{Absent, from_char-append}
use transmitter_linux.Hostapd.Prompt.Completing.{
  Context, Offer, offer, complete_in, list_cmd_list, hostapd_cli_cmd_completion, copied_word,
  hostapd_cli_edit_completion_cb,
}

take-drop : (n : ℕ) (xs : List ℕ) → take n xs ++ drop n xs ≡ xs
take-drop zero xs = refl
take-drop (suc n) [] = refl
take-drop (suc n) (x ∷ xs) = ap (◌∷◌ x) (take-drop n xs)

-- A copy from the start of a buffer replaces its first part.
copy_at-start :
    (memory src : List ℕ)
    → length src ≤ length memory
    → copy_at memory 0 src ≡ src ++ drop (length src) memory
copy_at-start memory src fits =
    ap (λ m. copy_at m 0 src) (sym (take-drop (length src) memory))
    ∙ copy_at-append [] (take (length src) memory) src (drop (length src) memory)
        (omega (arith, length-take (length src) memory))

-- The NUL behind the word ends the text there, however much of the rest was copied.
c_string-set :
    (word tail memory : List ℕ) (pos : ℕ)
    → length word ≤ pos
    → 0 < length memory
    → NonZero word
    → c_string (set (take pos (word ++ tail) ++ memory) (length word) 0) ≡ word
unfolding c_string
c_string-set [] tail [] pos h room nz = absurd (omega arith)
c_string-set [] tail (m ∷ memory) zero h room nz = refl
c_string-set [] [] (m ∷ memory) (suc pos) h room nz = refl
c_string-set [] (t ∷ tail) (m ∷ memory) (suc pos) h room nz = refl
c_string-set (c ∷ word) tail memory zero h room nz = absurd (omega arith)
c_string-set (zero ∷ word) tail memory (suc pos) h room nz = absurd (omega (arith, nz.0))
c_string-set (suc c ∷ word) tail memory (suc pos) h room nz =
    ap (λ l. suc c ∷ l) (c_string-set word tail memory pos (omega arith) room nz.1)

module _ (word tail memory : List ℕ) (pos : ℕ) (behind : length word ≤ pos)
    (inside : pos ≤ length (word ++ tail)) (size : length memory ≡ pos + 1) where
  abbrev copy : List ℕ
  copy = take pos ((word ++ tail) ++ (0 ∷ []))

  length-copy : length copy ≡ pos
  length-copy =
      omega
        (arith, length-take pos ((word ++ tail) ++ (0 ∷ [])), length-append (word ++ tail) (0 ∷ []))

  -- Every access of the copy is in bounds.
  copied_word-some :
      copied_word memory (word ++ tail) pos (length word)
      ≡ some (set (copy_at memory 0 copy) (length word) 0)
  unfolding copied_word
  copied_word-some =
      let read : leb pos (length (word ++ tail) + 1) ≡ true = ground arith in
      let written : leb pos (length memory) ≡ true = ground arith in
      let ended : ltb (length word) (length memory) ≡ true = ground arith in
      rw (read, written, ended) refl

  c_string-copied : NonZero word → c_string (set (copy_at memory 0 copy) (length word) 0) ≡ word
  c_string-copied nz =
      ap (λ b. c_string (set b (length word) 0))
        (copy_at-start memory copy (omega (arith, length-copy)))
      ∙ ap (λ t. c_string (set (take pos t ++ drop (length copy) memory) (length word) 0))
          (append_assoc word tail (0 ∷ []))
      ∙ c_string-set word (tail ++ (0 ∷ [])) (drop (length copy) memory) pos behind
          (omega (arith, length-copy, length-drop (length copy) memory)) nz

-- What is offered where memory is needed for it.
abbrev pub if_allocated : Option (List ℕ) → Offer → Offer
if_allocated none o = offer none
if_allocated (some memory) o = o

abbrev pub typed : List ℕ → List ℕ → List ℕ
typed word rest = word ++ (32 ∷ rest)

word_end : (word rest : List ℕ) → length (typed word rest) - length (32 ∷ rest) ≡ length word
word_end word rest = omega (arith, length-append word (32 ∷ rest))

served :
    (ctx : Context) (memory : Option (List ℕ)) (word rest : List ℕ) (pos : ℕ)
    → length word ≤ pos
    → NonZero word
    → pos ≤ length (typed word rest)
    → ((bytes : List ℕ) → memory ≡ some bytes → length bytes ≡ pos + 1)
    → complete_in ctx memory (typed word rest) pos (length word)
      ≡ some (
          if_allocated memory
            (hostapd_cli_cmd_completion ctx hostapd_cli_commands word (typed word rest) pos))
unfolding complete_in
served ctx none word rest pos behind nz inside sized = refl
served ctx (some bytes) word rest pos behind nz inside sized =
    let size = sized bytes refl in
    rw
      (
        copied_word-some word (32 ∷ rest) bytes pos behind inside size,
        c_string-copied word (32 ∷ rest) bytes pos behind inside size nz,
      )
      refl

-- For every word with a blank and any text behind it, and every position of the cursor in the
-- text, the callback of the line editor reads and writes within bounds: with the cursor in the
-- word it offers the commands of the table in their order, up to the first that there is no memory
-- for, or nothing without memory for the list; and behind the word it offers what the command table has for just
-- this word, or nothing if there is no memory for the copy. The word holds no blank and no NUL,
-- and memory that is allocated has the size that was asked for.
pub hostapd_cli_edit_completion_cb_lem :
    (ctx : Context) (os_malloc : ℕ → Option (List ℕ)) (word rest : List ℕ) (pos : ℕ)
    → Absent 32 word
    → NonZero word
    → pos ≤ length (typed word rest)
    → ((memory : List ℕ) → os_malloc (pos + 1) ≡ some memory → length memory ≡ pos + 1)
    → hostapd_cli_edit_completion_cb ctx os_malloc (typed word rest) pos
      ≡ some (
          if ltb pos (length word)
          then offer (list_cmd_list ctx.memory)
          else if_allocated
              (os_malloc (pos + 1))
              (hostapd_cli_cmd_completion ctx hostapd_cli_commands word (typed word rest) pos))
unfolding hostapd_cli_edit_completion_cb
hostapd_cli_edit_completion_cb_lem ctx os_malloc word rest pos plain nz inside sized =
    elim (Bool-cases (ltb pos (length word))) [
      | inl e ↦
          rw
            (
              hostapd_cli_edit_completion_cb,
              from_char-append 32 word rest plain,
              word_end word rest,
              e,
            )
            refl
      | inr e ↦
          rw
            (
              hostapd_cli_edit_completion_cb,
              from_char-append 32 word rest plain,
              word_end word rest,
              e,
            )
            (served ctx (os_malloc (pos + 1)) word rest pos (ground arith) nz inside sized)
    ]
