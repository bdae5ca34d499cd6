-- ===== src/Transmit/Props/CommandLine.antt =====
-- Which command lines are accepted, and what an accepted one means.
use transmitter_linux.Common.{
  ℕ, ◌≡◌, refl, ◌∙◌, ◌⊎◌, inr, Bool, true, false, ◌&&◌, ◌||◌, List, [], ◌∷◌, ◌==◌, arith,
}
use transmitter_linux.Machine.{
  World, Outcome, done, exited, blocked, fault, exit_success, exit_failure,
}
use transmitter_linux.Utils.{Config}
use transmitter_linux.Transmit.Args.{
  set_option, set_options, check_options, parse_command_line, first_char, zero_config,
}

abbrev pub transport : Config → Bool
transport c = c.use_beacon || c.use_btl || c.use_bt4 || c.use_bt5

abbrev pub conflict : Config → Bool
conflict c = (c.use_btl && (c.use_bt4 || c.use_bt5)) || ((c.use_btl || c.use_bt4) && c.use_packs)

-- How `parse_command_line` ends for the options `c`.
abbrev pub Verdict : Config → Outcome Config → Type 0
Verdict c (done c' w) = (c' ≡ c) × (conflict c ≡ false) × (transport c ≡ true)
Verdict c (exited code w) =
    ((code ≡ exit_failure) × (conflict c ≡ true))
    ⊎ ((code ≡ exit_success) × (conflict c ≡ false) × (transport c ≡ false))
Verdict c (blocked w) = ⊥
Verdict c (fault w) = ⊥

check_options-Verdict : (c : Config) (w : World) → Verdict c (check_options c w)
unfolding check_options
check_options-Verdict c w = ground arith

-- Some argument begins with the character.
unfoldable pub has : ℕ → List (List ℕ) → Bool
has c [] = false
has c (arg ∷ args) = first_char arg == c || has c args

-- The configuration that the arguments describe: each flag says whether its letter begins some
-- argument, and all else is as it was.
unfoldable pub chosen : List (List ℕ) → Config → Config
unfolding has
chosen args c = record c {
  use_beacon = c.use_beacon || has b'b' args;
  use_btl = c.use_btl || has b'l' args;
  use_bt4 = c.use_bt4 || has b'4' args;
  use_bt5 = c.use_bt5 || has b'5' args;
  use_packs = c.use_packs || has b'p' args;
  use_gps = c.use_gps || has b'g' args;
}

or-false : (b : Bool) → (b || false) ≡ b
or-false true = refl
or-false false = refl

set_option-chosen :
    (arg : List ℕ) (args : List (List ℕ)) (c : Config)
    → chosen args (set_option (first_char arg) c) ≡ chosen (arg ∷ args) c
unfolding chosen set_option
set_option-chosen arg args c = ground arith

pub set_options-chosen : (args : List (List ℕ)) (c : Config) → set_options args c ≡ chosen args c
unfolding set_options chosen
set_options-chosen [] c = ground arith
set_options-chosen (arg ∷ args) c =
    set_options-chosen args (set_option (first_char arg) c) ∙ set_option-chosen arg args c

-- For every list of arguments, `parse_command_line` from the all-zero configuration returns
-- exactly if the options that the first letters of the arguments choose contain no forbidden
-- combination and some transport, and then it returns those options; with a forbidden
-- combination it exits with failure, and with none and no transport it exits with success.
pub parse_command_line-Verdict :
    (args : List (List ℕ)) (w : World)
    → Verdict (chosen args zero_config) (parse_command_line args zero_config w)
unfolding parse_command_line
parse_command_line-Verdict [] w = inr (unfold chosen has in (refl, refl, refl))
parse_command_line-Verdict (arg ∷ args) w =
    rw (← set_options-chosen (arg ∷ args) zero_config)
      (check_options-Verdict (set_options (arg ∷ args) zero_config) w)
