-- ===== src/Hostapd/Commands/Stations.antt =====
-- The loops over hostapd's stations.
use transmitter_linux.Common.{
  ℕ, zero, suc, Bool, true, false, Option, none, some, List, [], ◌∷◌, ◌++◌, ◌==◌, ◌||◌, not, codes,
  take, if◌then◌else◌,
}
use transmitter_linux.Machine.{
  M, ◌>>=◌, ◌>>◌, pure, skip, say, when, blocked, Env, Reply, replied, timed_out, request_failed,
  ctrl_request, not_connected, command_timed_out, command_failed, reply_text, station_line,
}
use transmitter_linux.Hostapd.Table.{Handler, all_sta, list_sta}
use transmitter_linux.Hostapd.Commands.Format.{snprintf, words, same_text}

-- The text up to the end of its first line.
unfoldable pub first_line : List ℕ → List ℕ
first_line [] = []
first_line (c ∷ text) = let rest = first_line text in if c == 0 || c == 10 then [] else c ∷ rest

-- `memcmp(buf, "FAIL", 4) == 0`, for the text with the NUL that ends it.
unfoldable pub is_fail : List ℕ → Bool
unfolding same_text
is_fail text = same_text (take 4 text) (codes "FAIL")

abbrev pub is_empty : List ℕ → Bool
is_empty [] = true
is_empty (c ∷ text) = false

-- The addresses that are not empty: what is added to the list `stations` after its flush.
unfoldable pub keep_stations : List (List ℕ) → List (List ℕ)
keep_stations [] = []
keep_stations (addr ∷ addrs) =
    let rest = keep_stations addrs in if is_empty addr then rest else addr ∷ rest

module _ (env : Env) where
  -- What follows the request in `wpa_ctrl_command_sta`: the address, of at most 31 characters.
  unfoldable pub after_sta : Bool → Reply → M (Option (List ℕ))
  unfolding first_line is_fail
  after_sta print (replied text) =
      if is_fail text
      then pure none
      else (when print (say (reply_text text)) >>= λ _. pure (some (take 31 (first_line text))))
  after_sta print timed_out = do say command_timed_out; pure none
  after_sta print request_failed = do say command_failed; pure none

  -- `wpa_ctrl_command_sta`, with the address where it returns 0. It does not post the semaphore.
  unfoldable pub wpa_ctrl_command_sta : Bool → List ℕ → M (Option (List ℕ))
  unfolding after_sta
  wpa_ctrl_command_sta print cmd w =
      if w.connected
      then after_sta print (env.wpa_ctrl_request w.out cmd)
          (record w { out = w.out ++ (ctrl_request cmd ∷ []) })
      else (say not_connected >>= λ _. pure none) w

  -- The `do` loops, with what they do for each address, and the addresses they went through. A
  -- loop that takes more than `fuel` turns is one that does not end.
  unfoldable pub next_stations : ℕ → Bool → (List ℕ → M (Unit {0})) → List ℕ → M (List (List ℕ))
  unfolding wpa_ctrl_command_sta
  next_stations zero print each addr = λ w. blocked w
  next_stations (suc fuel) print each addr =
      let later = next_stations fuel print each in
      do
        each addr
        next ← wpa_ctrl_command_sta print (snprintf 64 (words (codes "STA-NEXT") addr))
        elim next [
          | none ↦ pure (addr ∷ [])
          | some addr' ↦ (later addr' >>= λ addrs. pure (addr ∷ addrs))
        ]

  unfoldable pub all_stations : ℕ → Bool → (List ℕ → M (Unit {0})) → M (Option (List (List ℕ)))
  unfolding next_stations wpa_ctrl_command_sta
  all_stations fuel print each = do
    first ← wpa_ctrl_command_sta print (codes "STA-FIRST")
    elim first [
      | none ↦ pure none
      | some addr ↦ (next_stations fuel print each addr >>= λ addrs. pure (some addrs))
    ]

  -- Returns 0 if there is no first station, and otherwise -1.
  unfoldable pub hostapd_cli_cmd_all_sta : ℕ → M Bool
  unfolding all_stations
  hostapd_cli_cmd_all_sta fuel = do
    walked ← all_stations fuel true (λ addr. skip)
    elim walked [ none ↦ pure true | some addrs ↦ pure false ]

  -- Prints each address that is not empty.
  unfoldable pub hostapd_cli_cmd_list_sta : ℕ → M Bool
  unfolding all_stations
  hostapd_cli_cmd_list_sta fuel = do
    walked ← all_stations fuel false (λ addr. when (not (is_empty addr)) (say (station_line addr)))
    pure true

  -- The new content of the list `stations`; `interactive` is 1.
  unfoldable pub update_stations : ℕ → M (List (List ℕ))
  unfolding all_stations keep_stations
  update_stations fuel = do
    walked ← all_stations fuel false (λ addr. skip)
    elim walked [ none ↦ pure [] | some addrs ↦ pure (keep_stations addrs) ]

  -- The handlers that `run_handler` is not about, with the one that changes the connection.
  abbrev pub station_handlers : ℕ → (List (List ℕ) → M Bool) → Handler → List (List ℕ) → M Bool
  station_handlers fuel interface all_sta args = hostapd_cli_cmd_all_sta fuel
  station_handlers fuel interface list_sta args = hostapd_cli_cmd_list_sta fuel
  station_handlers fuel interface handler args = interface args
