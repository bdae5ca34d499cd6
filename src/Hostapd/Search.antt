-- ===== src/Hostapd/Search.antt =====
-- Which row of a command table `wpa_request` takes.
use transmitter_linux.Common.{
  ℕ, suc, ◌+◌, ◌≡◌, refl, ◌∙◌, ap, true, Option, none, some, List, [], ◌∷◌, if◌then◌else◌, arith,
}
use transmitter_linux.Hostapd.Table.{Handler, Command, begins_with, same_word, find_command}

-- The handler of the first row whose command is the word.
pub exact : List Command → List ℕ → Option Handler
exact [] arg = none
exact (r ∷ rows) arg = if same_word r.cmd arg then some r.handler else exact rows arg

-- The handler of the last row whose command begins with the word, or `d`.
pub last_match : List Command → List ℕ → Option Handler → Option Handler
last_match [] arg d = d
last_match (r ∷ rows) arg d =
    last_match rows arg (if begins_with r.cmd arg then some r.handler else d)

-- How many rows have a command that begins with the word.
pub matches : List Command → List ℕ → ℕ
matches [] arg = 0
matches (r ∷ rows) arg = (if begins_with r.cmd arg then 1 else 0) + matches rows arg

begins_with-same_word :
    (name arg : List ℕ) → same_word name arg ≡ true → begins_with name arg ≡ true
unfolding begins_with same_word
begins_with-same_word [] [] h = refl
begins_with-same_word [] (a ∷ arg) h = h
begins_with-same_word (c ∷ name) [] h = refl
begins_with-same_word (c ∷ name) (a ∷ arg) h = ground (arith, begins_with-same_word name arg)

-- What the search gives: the exact match or, without one, the last match and the count.
abbrev pub choose : Option Handler → Option Handler × ℕ → Option Handler × ℕ
choose (some h) other = (some h, 1)
choose none other = other

find_command-choose :
    (rows : List Command) (arg : List ℕ) (match : Option Handler) (count : ℕ)
    → find_command rows arg match count
      ≡ choose (exact rows arg) (last_match rows arg match, count + matches rows arg)
unfolding find_command exact last_match matches
find_command-choose [] arg match count = ground arith
find_command-choose (r ∷ rows) arg match count = ground (
  arith,
  begins_with-same_word r.cmd arg,
  find_command-choose rows arg match count,
  find_command-choose rows arg (some r.handler) (suc count),
)

-- For every table and word: if some command equals the word, in any case of letters, the search
-- returns the first such row and the count 1, however many commands begin with the word;
-- otherwise it returns the last row whose command begins with the word, if there is one, and the
-- number of those rows.
pub find_command_lem :
    (rows : List Command) (arg : List ℕ)
    → find_command rows arg none 0
      ≡ choose (exact rows arg) (last_match rows arg none, matches rows arg)
find_command_lem rows arg =
    find_command-choose rows arg none 0
    ∙ ap (λ n. choose (exact rows arg) (last_match rows arg none, n)) (omega arith)
