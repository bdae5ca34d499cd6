-- ===== src/Hostapd/Prompt/Completing.antt =====
-- What the prompt of ap_interface.c completes, and its callbacks. The function that a row names is
-- run with the number of the argument that the cursor is in, which hostapd's `get_cmd_arg_num`
-- finds.
use transmitter_linux.Common.{
  ℕ, ◌+◌, ◌-◌, Bool, ◌==◌, ◌&&◌, Option, none, some, List, [], ◌∷◌, ◌++◌, if◌then◌else◌, codes, map,
  ltb, leb, length, take, set, copy_at,
}
use transmitter_linux.Machine.{M, skip, Env}
use transmitter_linux.Utils.Text.{c_string}
use transmitter_linux.Hostapd.Table.{
  Handler, Command, Completion, complete_stations, complete_help, complete_interface, complete_set,
  complete_get, hostapd_cli_commands, same_word,
}
use transmitter_linux.Hostapd.Events.{from_char}
use transmitter_linux.Hostapd.Interfaces.{hostapd_complete_interface}
use transmitter_linux.Hostapd.Commands.{wpa_request}

-- The copies of a list of names: nothing if `os_calloc` fails, and else those up to the first
-- `os_strdup` that fails, behind so many that do not.
abbrev pub copies : Option ℕ → List (List ℕ) → Option (List (List ℕ))
copies none names = none
copies (some strdups) names = some (take strdups names)

-- `list_cmd_list`
unfoldable pub list_cmd_list : Option ℕ → Option (List (List ℕ))
list_cmd_list memory = copies memory (map (λ row. row.cmd) hostapd_cli_commands)

-- The fields of `hostapd_complete_set` and `hostapd_complete_get` as the build has them.
unfoldable pub hostapd_complete_set : Option ℕ → ℕ → Option (List (List ℕ))
hostapd_complete_set memory arg =
    if arg == 1 then copies memory (codes "deny_mac_file" ∷ codes "accept_mac_file" ∷ []) else none

unfoldable pub hostapd_complete_get : Option ℕ → ℕ → Option (List (List ℕ))
hostapd_complete_get memory arg =
    if arg == 1 then copies memory (codes "version" ∷ codes "tls_library" ∷ []) else none

unfoldable pub hostapd_complete_stations : List (List ℕ) → ℕ → Option (List (List ℕ))
hostapd_complete_stations stations arg = if arg == 1 then some stations else none

unfoldable pub hostapd_cli_complete_help : Option ℕ → ℕ → Option (List (List ℕ))
unfolding list_cmd_list
hostapd_cli_complete_help memory arg = if arg == 1 then list_cmd_list memory else none

-- What the completion functions meet: the list `stations`, the connection, the memory for
-- their copies, the directory of the control interface, and `get_cmd_arg_num`.
pub record Context : Type 0 where
  pub stations : List (List ℕ)
  pub connected : Bool
  pub memory : Option ℕ  -- whether `os_calloc` succeeds, and how often `os_strdup` does behind it
  pub dir : Option (List (List ℕ))
  pub get_cmd_arg_num : List ℕ → ℕ → ℕ

-- `hostapd_cli_commands[i].completion(str, pos)`
unfoldable pub complete : Context → Completion → List ℕ → ℕ → Option (List (List ℕ))
unfolding hostapd_complete_stations hostapd_cli_complete_help hostapd_complete_interface
    hostapd_complete_set hostapd_complete_get
complete ctx complete_stations str pos =
    hostapd_complete_stations ctx.stations (ctx.get_cmd_arg_num str pos)
complete ctx complete_help str pos =
    hostapd_cli_complete_help ctx.memory (ctx.get_cmd_arg_num str pos)
complete ctx complete_interface str pos =
    hostapd_complete_interface ctx.connected ctx.dir (ctx.get_cmd_arg_num str pos)
complete ctx complete_set str pos = hostapd_complete_set ctx.memory (ctx.get_cmd_arg_num str pos)
complete ctx complete_get str pos = hostapd_complete_get ctx.memory (ctx.get_cmd_arg_num str pos)

-- The words that are offered, and the lines that are printed in their place.
pub record Offer : Type 0 where
  pub words : Option (List (List ℕ))
  pub lines : List (List ℕ)

abbrev pub offer : Option (List (List ℕ)) → Offer
offer words = record { words = words; lines = [] }

-- What a row offers: its completion, or else its usage on a line of its own.
abbrev pub row_offer : Context → Option Completion → Option (List ℕ) → List ℕ → ℕ → Offer
row_offer ctx (some f) usage str pos = offer (complete ctx f str pos)
row_offer ctx none none str pos = offer none
row_offer ctx none (some usage) str pos = record {
  words = none;
  lines = (codes "\r" ++ (usage ++ codes "\n")) ∷ [];
}

unfoldable pub hostapd_cli_cmd_completion : Context → List Command → List ℕ → List ℕ → ℕ → Offer
hostapd_cli_cmd_completion ctx [] cmd str pos = offer none
hostapd_cli_cmd_completion ctx (r ∷ rows) cmd str pos =
    let later = hostapd_cli_cmd_completion ctx rows cmd str pos in
    if same_word r.cmd cmd then row_offer ctx r.completion r.usage str pos else later

-- The copy of the command: `pos` bytes of the text and its NUL into the memory that `os_malloc`
-- gave, then a NUL at `end - str`. `none` where the code reads or writes out of bounds.
unfoldable pub copied_word : List ℕ → List ℕ → ℕ → ℕ → Option (List ℕ)
copied_word memory str pos word_end =
    if leb pos (length str + 1) && (leb pos (length memory) && ltb word_end (length memory))
    then some (set (copy_at memory 0 (take pos (str ++ (0 ∷ [])))) word_end 0)
    else none

abbrev complete_copied : Context → Option (List ℕ) → List ℕ → ℕ → Option Offer
complete_copied ctx none str pos = none
complete_copied ctx (some cmd) str pos =
    some (hostapd_cli_cmd_completion ctx hostapd_cli_commands (c_string cmd) str pos)

-- The rest of the callback, with what `os_malloc` gave.
unfoldable pub complete_in : Context → Option (List ℕ) → List ℕ → ℕ → ℕ → Option Offer
unfolding hostapd_cli_cmd_completion copied_word c_string
complete_in ctx none str pos word_end = some (offer none)
complete_in ctx (some memory) str pos word_end =
    complete_copied ctx (copied_word memory str pos word_end) str pos

-- With what `os_malloc` gives for a size, if it gives anything; `none` is undefined behaviour.
unfoldable pub hostapd_cli_edit_completion_cb :
    Context → (ℕ → Option (List ℕ)) → List ℕ → ℕ → Option Offer
unfolding from_char list_cmd_list complete_in
hostapd_cli_edit_completion_cb ctx os_malloc str pos = elim (from_char 32 str) [
  | none ↦ some (offer (list_cmd_list ctx.memory))
  | some blank ↦
      let word_end = length str - length blank in
      if ltb pos word_end
      then some (offer (list_cmd_list ctx.memory))
      else complete_in ctx (os_malloc (pos + 1)) str pos word_end
]

-- `hostapd_cli_edit_cmd_cb`, with hostapd's `tokenize_cmd`.
unfoldable pub hostapd_cli_edit_cmd_cb :
    Env → (Handler → List (List ℕ) → M Bool) → (List ℕ → List (List ℕ)) → List ℕ → M (Unit {0})
unfolding wpa_request
hostapd_cli_edit_cmd_cb env other tokenize_cmd cmd = elim (tokenize_cmd cmd) [
  | [] ↦ skip
  | word ∷ args ↦ wpa_request env other (word ∷ args)
]
