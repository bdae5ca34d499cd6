-- ===== src/Transmit/Args.antt =====
-- `parse_command_line` of transmit.c.
use transmitter_linux.Common.{ℕ, true, false, not, ◌&&◌, ◌||◌, List, [], ◌∷◌, ◌==◌, if◌then◌else◌}
use transmitter_linux.Machine.{
  M, ◌>>◌, pure, when, say, exit, exit_success, exit_failure, usage, beacon_reminder,
  beacon_single_warning, api_conflict, bt4_pack_conflict, bt4_bt5_warning, bt5_single_warning,
  gps_warning,
}
use transmitter_linux.Utils.{Config, Counters}

-- `config = { 0 }`
abbrev pub zero_counters : Counters
zero_counters = record {
  basic_id = 0;
  location = 0;
  auth = 0;
  self_id = 0;
  system = 0;
  operator_id = 0;
  packed = 0;
}

abbrev pub zero_config : Config
zero_config = record {
  use_beacon = false;
  use_btl = false;
  use_bt4 = false;
  use_bt5 = false;
  use_gps = false;
  handle_bt4 = 0;
  handle_bt5 = 0;
  use_packs = false;
  msg_counters = zero_counters;
}

-- `*argv[i]`: the NUL of an empty argument is 0.
abbrev pub first_char : List ℕ → ℕ
first_char [] = 0
first_char (c ∷ cs) = c

-- The `switch`.
unfoldable pub set_option : ℕ → Config → Config
set_option c config =
    if c == b'b'
    then record config { use_beacon = true }
    else if c == b'l'
    then record config { use_btl = true }
    else if c == b'4'
    then record config { use_bt4 = true }
    else if c == b'5'
    then record config { use_bt5 = true }
    else if c == b'p'
    then record config { use_packs = true }
    else if c == b'g'
    then record config { use_gps = true }
    else config

-- The loop over `argv[1]` to `argv[argc - 1]`.
unfoldable pub set_options : List (List ℕ) → Config → Config
unfolding set_option
set_options [] config = config
set_options (arg ∷ args) config = set_options args (set_option (first_char arg) config)

print_help : M (Unit {0})
print_help = say usage

-- What follows the loop.
unfoldable pub check_options : Config → M Config
unfolding print_help
check_options config = do
  when config.use_beacon (say beacon_reminder)
  when (config.use_beacon && not config.use_packs) (say beacon_single_warning)
  when (config.use_btl && (config.use_bt4 || config.use_bt5))
      (say api_conflict >> exit exit_failure)
  when ((config.use_btl || config.use_bt4) && config.use_packs)
      (say bt4_pack_conflict >> exit exit_failure)
  when (config.use_bt4 && config.use_bt5) (say bt4_bt5_warning)
  when (config.use_bt5 && not config.use_packs) (say bt5_single_warning)
  when (not config.use_beacon && not config.use_btl && not config.use_bt4 && not config.use_bt5)
      (print_help >> exit exit_success)
  when config.use_gps (say gps_warning)
  pure config

-- The arguments behind the program's name.
unfoldable pub parse_command_line : List (List ℕ) → Config → M Config
unfolding print_help check_options set_options
parse_command_line [] config = print_help >> exit exit_success
parse_command_line (arg ∷ args) config = check_options (set_options (arg ∷ args) config)
