-- ===== src/Beacon/Served.antt =====
-- When the functions of wifi_beacon.h return.
use transmitter_linux.Common.{
  ℕ, ◌≡◌, refl, ◌∙◌, ap, Bool, true, false, List, [], ◌∷◌, ◌++◌, codes, if◌then◌else◌, Bool-cases,
  inl, inr,
}
use transmitter_linux.Machine.{
  World, Effect, done, blocked, M, ◌>>=◌, ◌>>◌, skip, Env, Tick, printed, say, result_of,
  not_connected, too_long, >>=-done, >>=-blocked,
}
use transmitter_linux.Hostapd.Table.{Handler, hostapd_cli_commands, begins_with, same_word}
use transmitter_linux.Hostapd.Control.{switch_from, switch_thread, sem_wait, wpa_ctrl_command}
use transmitter_linux.Hostapd.Commands.{
  wpa_request, hostapd_cli_cmd_update_beacon, hostapd_cli_cmd_set, send_set, words, snprintf_error,
}
use transmitter_linux.Hostapd.Waiting.{NeverReopensAll, run_ticks_idle, acquire_idle}
use transmitter_linux.Beacon.Defs.{
  request_and_wait, send_update_beacon, send_beacon_message, c_string, message_data, sleep,
}

-- The other thread has no connection, will not get one, and has posted nothing.
abbrev pub Stranded : World → Type 0
Stranded w = (w.connected ≡ false) × (w.semaphore ≡ 0) × NeverReopensAll w.schedule

abbrev later : List (List Tick) → List (List Tick)
later [] = []
later (ts ∷ rest) = rest

switch_thread_idle :
    (w : World) → Stranded w → switch_thread w ≡ done tt (record w { schedule = later w.schedule })
unfolding switch_thread switch_from
switch_thread_idle w idle = go w.schedule idle.2
  where
    go :
        (s : List (List Tick))
        → NeverReopensAll s
        → done tt (switch_from s w) ≡ done tt (record w { schedule = later s })
    go [] never = refl
    go (ts ∷ rest) never =
        ap (done tt) (run_ticks_idle ts (record w { schedule = rest }) idle.0 never.0)

never_later : (s : List (List Tick)) → NeverReopensAll s → NeverReopensAll (later s)
never_later [] never = tt
never_later (ts ∷ rest) never = never.1

module _ (env : Env) (other : Handler → List (List ℕ) → M Bool) where
  pub wpa_request-update_beacon :
      (args : List (List ℕ)) (w : World)
      → wpa_request env other (codes "update_beacon" ∷ args) w
        ≡ (hostapd_cli_cmd_update_beacon env >>= λ _. skip) w
  unfolding wpa_request hostapd_cli_commands begins_with same_word
  wpa_request-update_beacon args w = refl

  pub wpa_request-set :
      (args : List (List ℕ)) (w : World)
      → wpa_request env other (codes "set" ∷ args) w
        ≡ (hostapd_cli_cmd_set env args >>= λ _. skip) w
  unfolding wpa_request hostapd_cli_commands begins_with same_word
  wpa_request-set args w = refl

  -- A request that only prints leaves the main thread in `sem_wait`.
  request_and_wait_idle :
      (cmd : List (List ℕ)) (w v : World)
      → Stranded w
      → wpa_request env other cmd (record w { schedule = later w.schedule }) ≡ done tt v
      → Stranded v
      → request_and_wait env other cmd w ≡ blocked (record v { schedule = [] })
  unfolding request_and_wait sem_wait
  request_and_wait_idle cmd w v idle requested idle' =
      >>=-done switch_thread (λ _. wpa_request env other cmd >> sem_wait)
        (switch_thread_idle w idle)
      ∙ >>=-done (wpa_request env other cmd) (λ _. sem_wait) requested
      ∙ acquire_idle v.schedule v idle'.0 idle'.1 idle'.2

  command_idle :
      (print : Bool) (cmd : List ℕ) (w : World)
      → w.connected ≡ false
      → wpa_ctrl_command env print cmd w
        ≡ done false (record w { out = w.out ++ (printed not_connected ∷ []) })
  unfolding wpa_ctrl_command
  command_idle print cmd w off = simp off

  update_beacon_idle :
      (w : World)
      → w.connected ≡ false
      → (hostapd_cli_cmd_update_beacon env >>= λ _. skip) w
        ≡ done tt (record w {
          out =
              (w.out ++ (printed (result_of (codes "update_beacon")) ∷ []))
              ++ (printed not_connected ∷ []);
        })
  unfolding hostapd_cli_cmd_update_beacon
  update_beacon_idle w off =
      >>=-done (hostapd_cli_cmd_update_beacon env) (λ _. skip)
        (command_idle true (codes "UPDATE_BEACON")
          (record w { out = w.out ++ (printed (result_of (codes "update_beacon")) ∷ []) }) off)

  -- While there is no connection to hostapd, none comes up and the semaphore is 0,
  -- `send_update_beacon` prints two lines and then stays in `sem_wait` for ever.
  pub send_update_beacon_idle :
      (w : World)
      → Stranded w
      → send_update_beacon env other w
        ≡ blocked (record w {
          schedule = [];
          out =
              (w.out ++ (printed (result_of (codes "update_beacon")) ∷ []))
              ++ (printed not_connected ∷ []);
        })
  unfolding send_update_beacon hostapd_cli_cmd_update_beacon wpa_ctrl_command
  send_update_beacon_idle w idle =
      let v : World = record w {
        schedule = later w.schedule;
        out =
            (w.out ++ (printed (result_of (codes "update_beacon")) ∷ []))
            ++ (printed not_connected ∷ []);
      } in
      request_and_wait_idle (codes "update_beacon" ∷ []) w v idle
        (wpa_request-update_beacon [] (record w { schedule = later w.schedule })
          ∙ update_beacon_idle (record w { schedule = later w.schedule }) idle.0)
        (idle.0, idle.1, never_later w.schedule idle.2)

  -- What is printed in place of the request of `set`.
  abbrev pub refused : List ℕ → List Effect → List Effect
  refused cmd out =
      if snprintf_error 2048 cmd
      then out ++ (printed too_long ∷ [])
      else (out ++ (printed (result_of cmd) ∷ [])) ++ (printed not_connected ∷ [])

  set_idle :
      (variable value : List ℕ) (w : World)
      → w.connected ≡ false
      → (hostapd_cli_cmd_set env (variable ∷ value ∷ []) >>= λ _. skip) w
        ≡ done tt (record w { out = refused (words (words (codes "SET") variable) value) w.out })
  unfolding hostapd_cli_cmd_set send_set wpa_ctrl_command
  set_idle variable value w off = elim (Bool-cases (snprintf_error 2048 cmd)) [
    | inl long ↦ rw long refl
    | inr fits ↦ rw fits (
        >>=-done (say (result_of cmd) >>= λ _. wpa_ctrl_command env true cmd) (λ _. skip)
          (command_idle true cmd (record w { out = w.out ++ (printed (result_of cmd) ∷ []) }) off))
  ]
    where
      cmd : List ℕ
      cmd = words (words (codes "SET") variable) value

  -- While there is no connection to hostapd, none comes up and the semaphore is 0, the first
  -- request of `send_beacon_message` is dropped without a post of the semaphore: the call stays in
  -- `sem_wait` for ever, and nothing is requested of hostapd.
  pub send_beacon_message_idle :
      (encoded : List ℕ) (msg_counter : ℕ) (w : World)
      → Stranded w
      → send_beacon_message env other encoded msg_counter w
        ≡ blocked (record w {
          schedule = [];
          out =
              refused
                (words
                  (words (codes "SET") (codes "vendor_elements"))
                  (c_string (message_data encoded msg_counter)))
                w.out;
        })
  unfolding send_beacon_message
  send_beacon_message_idle encoded msg_counter w idle =
      let data' : List ℕ = c_string (message_data encoded msg_counter) in
      let args : List (List ℕ) = codes "vendor_elements" ∷ data' ∷ [] in
      let v : World = record w {
        schedule = later w.schedule;
        out = refused (words (words (codes "SET") (codes "vendor_elements")) data') w.out;
      } in
      >>=-blocked (request_and_wait env other (codes "set" ∷ args))
        (λ _. send_update_beacon env other >> sleep env other 1)
        (request_and_wait_idle (codes "set" ∷ args) w v idle
          (wpa_request-set args (record w { schedule = later w.schedule })
            ∙ set_idle (codes "vendor_elements") data' (record w { schedule = later w.schedule })
                idle.0)
          (idle.0, idle.1, never_later w.schedule idle.2))
