-- ===== src/Hostapd/Help.antt =====
-- The help text of ap_interface.c: `str_starts`, `print_cmd_help` and `print_help`.
use transmitter_linux.Common.{
  ℕ, Bool, true, false, ◌==◌, ◌&&◌, Option, none, some, List, [], ◌∷◌, ◌++◌, if◌then◌else◌, codes,
}
use transmitter_linux.Hostapd.Table.{Command}

-- `str_starts`
unfoldable pub starts : List ℕ → List ℕ → Bool
starts text [] = true
starts [] (c ∷ start) = false
starts (t ∷ text) (c ∷ start) = t == c && starts text start

-- `print_cmd_help` for a row's command and usage.
unfoldable pub padded : List ℕ → List ℕ → List ℕ
padded pad [] = []
padded pad (c ∷ usage) = let rest = padded pad usage in c ∷ (if c == 10 then pad ++ rest else rest)

unfoldable pub print_cmd_help : List ℕ → Option (List ℕ) → List ℕ → List ℕ
unfolding padded
print_cmd_help cmd none pad = []
print_cmd_help cmd (some usage) pad =
    pad ++ (cmd ++ (codes " " ++ (padded pad usage ++ codes "\n")))

-- `cmd == NULL || str_starts(row, cmd)`
abbrev pub asked : Option (List ℕ) → List ℕ → Bool
asked none row = true
asked (some cmd) row = starts row cmd

-- The loop of `print_help`.
unfoldable pub help_rows : List Command → Option (List ℕ) → List ℕ
unfolding print_cmd_help starts
help_rows [] cmd = []
help_rows (r ∷ rows) cmd =
    let rest = help_rows rows cmd in
    if asked cmd r.cmd then print_cmd_help r.cmd r.usage (codes "  ") ++ rest else rest

unfoldable pub print_help : List Command → Option (List ℕ) → List ℕ
unfolding help_rows
print_help rows cmd = codes "commands:\n" ++ help_rows rows cmd
