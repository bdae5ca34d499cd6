-- ===== src/Tests/Prompt.antt =====
-- The prompt of ap_interface.c and the loop of its action on concrete inputs.
use transmitter_linux.Common.{
  ℕ, ◌≡◌, ◌≢◌, refl, true, false, none, some, List, [], ◌∷◌, codes, length, map, if◌then◌else◌, ltb,
  replicate, length-replicate, arith, Option,
}
use transmitter_linux.Machine.{timed_out, eintr}
use transmitter_linux.Hostapd.Table.{hostapd_cli_commands}
use transmitter_linux.Hostapd.Events.{Action}
use transmitter_linux.Hostapd.Prompt.Completing.{
  Context, offer, list_cmd_list, hostapd_cli_cmd_completion, hostapd_cli_edit_completion_cb,
}
use transmitter_linux.Hostapd.Prompt.Word.{typed, if_allocated, hostapd_cli_edit_completion_cb_lem}
use transmitter_linux.Hostapd.Watching.{ActionTurn, watching, hostapd_cli_action}
use transmitter_linux.Hostapd.Watching.Runs.{run_for, all_messages, hostapd_cli_action_lem}
use transmitter_linux.Tests.Hostapd.{event_names}

-- One station, and a cursor that is always in the first argument.
abbrev prompt_context : Context
prompt_context = record {
  stations = codes "02:00:00:00:00:01" ∷ [];
  connected = true;
  memory = some 400;
  dir = none;
  get_cmd_arg_num = λ str pos. 1;
}

abbrev dirty_memory : ℕ → Option (List ℕ)
dirty_memory n = some (replicate n 65)

dirty_memory-length : (n : ℕ) (memory : List ℕ) → dirty_memory n ≡ some memory → length memory ≡ n
dirty_memory-length n memory e = ground (arith, e, length-replicate {A = ℕ} n 65)

hostapd_cli_edit_completion_cb_lem_example :
    hostapd_cli_edit_completion_cb prompt_context dirty_memory (typed (codes "sta") (codes "02:")) 7
    ≡ some (
        if ltb 7 (length (codes "sta"))
        then offer (list_cmd_list prompt_context.memory)
        else if_allocated (dirty_memory 8) (
            hostapd_cli_cmd_completion prompt_context hostapd_cli_commands
              (codes "sta")
              (typed (codes "sta") (codes "02:"))
              7))
hostapd_cli_edit_completion_cb_lem_example =
    hostapd_cli_edit_completion_cb_lem prompt_context dirty_memory (codes "sta") (codes "02:") 7
      (ground arith) (ground arith) (omega arith) (dirty_memory-length 8)

abbrev test_action : Action
test_action = record {
  action_file = codes "/usr/bin/notify";
  ctrl_ifname = codes "wlan0";
  allocates = λ size. true;
}

-- A turn that reads two events, and one in which hostapd does not answer.
abbrev reading_turn : ActionTurn
reading_turn = record {
  quit = false;
  select = none;
  readable = true;
  pending = some (codes "<3>AP-ENABLED ") ∷ some (codes "<2>AP-DISABLED ") ∷ [];
  unasked = [];
  reply = timed_out;
}

abbrev lost_turn : ActionTurn
lost_turn = record {
  quit = false;
  select = some eintr;
  readable = false;
  pending = [];
  unasked = codes "<3>TERMINATING" ∷ [];
  reply = timed_out;
}

hostapd_cli_action_lem_example :
    let w = hostapd_cli_action event_names test_action true (reading_turn ∷ lost_turn ∷ []) in
    (w.runs ≡ map (run_for test_action) (all_messages (reading_turn ∷ []) lost_turn))
    × (w.ended ≢ watching)
hostapd_cli_action_lem_example =
    hostapd_cli_action_lem event_names test_action (λ size. refl) (reading_turn ∷ []) [] lost_turn
      (refl, tt) refl
