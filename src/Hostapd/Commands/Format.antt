-- ===== src/Hostapd/Commands/Format.antt =====
-- How a handler makes its request from its arguments.
use transmitter_linux.Common.{
  ℕ, ◌-◌, Bool, true, false, Option, none, some, List, [], ◌∷◌, ◌++◌, ◌&&◌, ◌==◌, leb, ltb,
  if◌then◌else◌, codes, take, length, get_or,
}
use transmitter_linux.Machine.{M, ◌>>=◌, ◌>>◌, pure, say, Env, bad_arguments, too_long}
use transmitter_linux.Hostapd.Control.{wpa_ctrl_command}

-- `snprintf` into a buffer of `size` bytes keeps `size - 1` characters.
abbrev pub snprintf : ℕ → List ℕ → List ℕ
snprintf size text = take (size - 1) text

-- `os_snprintf_error`: the text and its NUL do not fit.
abbrev pub snprintf_error : ℕ → List ℕ → Bool
snprintf_error size text = leb size (length text)

-- "%s %s"
abbrev pub words : List ℕ → List ℕ → List ℕ
words name arg = name ++ (codes " " ++ arg)

-- `argv[i]` for an index below `argc`.
abbrev pub argv : List (List ℕ) → ℕ → List ℕ
argv args i = get_or args i []

-- `os_strcmp(…) == 0`
unfoldable pub same_text : List ℕ → List ℕ → Bool
same_text [] [] = true
same_text (a ∷ rest) [] = false
same_text [] (b ∷ bs) = false
same_text (a ∷ rest) (b ∷ bs) = a == b && same_text rest bs

-- The line for a wrong count of arguments, and -1.
unfoldable pub refuse : M Bool
refuse = do say bad_arguments; pure false

-- The loop that adds " %s" for each argument to a text in a buffer of `size` bytes, or `none` when
-- one does not fit.
unfoldable pub append_args : ℕ → List ℕ → List (List ℕ) → Option (List ℕ)
append_args size text [] = some text
append_args size text (a ∷ rest) =
    let more = append_args size (text ++ (codes " " ++ a)) rest in
    if snprintf_error (size - length text) (codes " " ++ a) then none else more

module _ (env : Env) where
  -- `snprintf` without a test, and the request.
  unfoldable pub send_cut : ℕ → List ℕ → M Bool
  send_cut size text = wpa_ctrl_command env true (snprintf size text)

  -- `os_snprintf` with a test that prints a line, and the request.
  unfoldable pub send_checked : ℕ → List ℕ → M Bool
  send_checked size text =
      if snprintf_error size text
      then (say too_long >>= λ _. pure false)
      else wpa_ctrl_command env true text

  -- The same with a test that prints nothing.
  unfoldable pub send_silent : ℕ → List ℕ → M Bool
  send_silent size text =
      if snprintf_error size text then pure false else wpa_ctrl_command env true text

  -- What follows a loop that adds the arguments, with a line if they do not fit, or without.
  unfoldable pub send_appended : Bool → Option (List ℕ) → M Bool
  send_appended print none = if print then (say too_long >>= λ _. pure false) else pure false
  send_appended print (some text) = wpa_ctrl_command env true text

  -- `hostapd_cli_cmd`; `write_cmd` is a function of hostapd's sources.
  unfoldable pub hostapd_cli_cmd : List ℕ → ℕ → List (List ℕ) → M Bool
  unfolding refuse
  hostapd_cli_cmd cmd min_args args =
      if ltb (length args) min_args then refuse else elim (env.write_cmd 4096 cmd args) [
        | none ↦ pure false
        | some text ↦ wpa_ctrl_command env true text
      ]
