-- ===== src/Transmit/Props/WifiMain.antt =====
-- The whole of `main` over Wi-Fi, from the command line to the exit.
use mathlib.Core.List.{append_assoc, append-nil}
use transmitter_linux.Common.{
  ℕ, zero, suc, ◌≡◌, refl, sym, ap, ◌∙◌, Bool, true, false, not, ◌||◌, ◌&&◌, List, [], ◌∷◌, ◌++◌,
  Option, replicate, map, length, codes, ◌≤◌, if◌then◌else◌, arith, Bool-cases, inl, inr,
}
use transmitter_linux.Machine.{
  World, Effect, done, exited, M, ◌>>◌, pure, when, say, slept_us, printed, ctrl_request,
  not_attached, Env, exit, exit_success, exit_failure, >>=-done, could_not_connect,
  connection_established, usage, beacon_reminder, beacon_single_warning, api_conflict,
  bt4_pack_conflict, bt4_bt5_warning, bt5_single_warning, gps_warning,
}
use transmitter_linux.Utils.{Config}
use transmitter_linux.Odid.{Odid, UasData}
use transmitter_linux.Gps.{Gpsd}
use transmitter_linux.Hostapd.Table.{Handler}
use transmitter_linux.Hostapd.Control.{sem_post, sem_wait}
use transmitter_linux.Hostapd.Startup.{
  Attempt, no_connection, connects, Startup, attach_connection, connect_loop, ap_interface_init,
}
use transmitter_linux.Hostapd.Commands.{same_text, update_stations}
use transmitter_linux.Hostapd.Walking.{next_cmd, visits, Serves, update_stations_lem}
use transmitter_linux.Beacon.Answering.Progress.{own, own-append, AnsweredAll}
use transmitter_linux.Beacon.Answering.Rounds.{acquire_posted}
use transmitter_linux.Transmit.Args.{parse_command_line, check_options, zero_config}
use transmitter_linux.Transmit.Main.{main, start_beacon, set_handles, example_data, any_bluetooth}
use transmitter_linux.Transmit.Props.CommandLine.{has, chosen, set_options-chosen}
use transmitter_linux.Transmit.Props.OverWifi.{OnlyWifi}
use transmitter_linux.Transmit.Props.WifiPacks.{PackFits}
use transmitter_linux.Transmit.Props.WifiRun.{
  when_off, when_on, run_requests, transmit_without_gps-Serves,
}

-- What the loop of `ap_interface_init` does for so many failed attempts before one that succeeds.
tries : List Effect → Bool → ℕ → List Effect
tries asked false zero = asked
tries asked true zero = asked ++ (printed connection_established ∷ [])
tries asked false (suc n) = printed could_not_connect ∷ slept_us 1000000 ∷ tries asked true n
tries asked true (suc n) = slept_us 1000000 ∷ tries asked true n

own-tries : (asked : List Effect) (warned : Bool) (n : ℕ) → own (tries asked warned n) ≡ own asked
unfolding own tries
own-tries asked false zero = refl
own-tries asked true zero =
    own-append asked (printed connection_established ∷ []) ∙ append-nil (own asked)
own-tries asked false (suc n) = own-tries asked true n
own-tries asked true (suc n) = own-tries asked true n

-- The requests for hostapd's stations, of an interface that is attached to.
abbrev pub station_requests : Bool → List (List ℕ) → List (List ℕ)
station_requests true addrs = codes "STA-FIRST" ∷ map next_cmd addrs
station_requests false addrs = []

-- What a new connection is used for.
abbrev asks : Env → Bool → List (List ℕ) → List Effect
asks env true addrs = ctrl_request (codes "STA-FIRST") ∷ visits env (λ a. []) addrs
asks env false addrs = printed not_attached ∷ []

own-visits :
    (env : Env) (addrs : List (List ℕ)) → own (visits env (λ a. []) addrs) ≡ map next_cmd addrs
unfolding own same_text
own-visits env [] = refl
own-visits env (addr ∷ addrs) = ap (λ l. next_cmd addr ∷ l) (own-visits env addrs)

own-asks :
    (env : Env) (attaches : Bool) (addrs : List (List ℕ))
    → own (asks env attaches addrs) ≡ station_requests attaches addrs
unfolding own same_text
own-asks env true addrs = ap (λ l. codes "STA-FIRST" ∷ l) (own-visits env addrs)
own-asks env false addrs = refl

-- Where the interface is attached to, hostapd answers for its stations.
abbrev pub ServesStations : Env → ℕ → Bool → List (List ℕ) → Type 0
ServesStations env fuel true addrs = (length addrs ≤ fuel) × Serves env (codes "STA-FIRST") addrs
ServesStations env fuel false addrs = Unit

attach_connection-asks :
    (env : Env) (fuel : ℕ) (attaches : Bool) (addrs : List (List ℕ)) (w : World)
    → w.connected ≡ true
    → ServesStations env fuel attaches addrs
    → attach_connection env fuel attaches w
      ≡ done tt (record w { out = w.out ++ asks env attaches addrs })
unfolding attach_connection
attach_connection-asks env fuel true addrs w on served =
    >>=-done (update_stations env fuel) _
      (update_stations_lem env addrs fuel w served.0 on served.1)
attach_connection-asks env fuel false addrs w on served = refl

module _ (env : Env) (fuel : ℕ) (attaches : Bool) (addrs : List (List ℕ))
    (served : ServesStations env fuel attaches addrs) where
  found_by :
      (warned : Bool) (rest : List Attempt) (w : World)
      → connect_loop env fuel warned (connects attaches ∷ rest) w
        ≡ when warned
            (say connection_established)
            (record w { out = w.out ++ asks env attaches addrs; connected = true })
  unfolding connect_loop
  found_by warned rest w =
      >>=-done (attach_connection env fuel attaches) _
        (attach_connection-asks env fuel attaches addrs (record w { connected = true }) refl served)

  connect_loop-tries :
      (warned : Bool) (n : ℕ) (rest : List Attempt) (w : World)
      → connect_loop env fuel warned (replicate n no_connection ++ (connects attaches ∷ rest)) w
        ≡ done tt
            (record w { out = w.out ++ tries (asks env attaches addrs) warned n; connected = true })
  unfolding connect_loop tries
  connect_loop-tries false zero rest w = found_by false rest w
  connect_loop-tries true zero rest w =
      found_by true rest w
      ∙ ap (λ o. done tt (record w { out = o; connected = true }))
          (append_assoc w.out (asks env attaches addrs) (printed connection_established ∷ []))
  connect_loop-tries false (suc n) rest w =
      connect_loop-tries true n rest
        (record w { out = (w.out ++ (printed could_not_connect ∷ [])) ++ (slept_us 1000000 ∷ []) })
      ∙ ap (λ o. done tt (record w { out = o; connected = true }))
          (append_assoc (w.out ++ (printed could_not_connect ∷ [])) (slept_us 1000000 ∷ [])
              (tries (asks env attaches addrs) true n)
            ∙ append_assoc w.out (printed could_not_connect ∷ [])
                (slept_us 1000000 ∷ tries (asks env attaches addrs) true n))
  connect_loop-tries true (suc n) rest w =
      connect_loop-tries true n rest (record w { out = w.out ++ (slept_us 1000000 ∷ []) })
      ∙ ap (λ o. done tt (record w { out = o; connected = true }))
          (append_assoc w.out (slept_us 1000000 ∷ []) (tries (asks env attaches addrs) true n))

-- The thread starts, and finds hostapd after so many attempts.
abbrev pub finds_hostapd : ℕ → ℕ → Bool → List Attempt → Startup
finds_hostapd fuel n attaches rest = record {
  program_init_fails = false;
  eloop_init_fails = false;
  attempts = replicate n no_connection ++ (connects attaches ∷ rest);
  fuel = fuel;
}

module _ (env : Env) (fuel : ℕ) (attaches : Bool) (addrs : List (List ℕ))
    (served : ServesStations env fuel attaches addrs) where
  -- What is done until hostapd is found.
  abbrev search : ℕ → List Effect
  search n = tries (asks env attaches addrs) false n

  init_returns :
      (n : ℕ) (rest : List Attempt) (w : World)
      → ap_interface_init env (finds_hostapd fuel n attaches rest) w
        ≡ done tt (sem_post (record w { out = w.out ++ search n; connected = true }))
  unfolding ap_interface_init
  init_returns n rest w =
      >>=-done
        (connect_loop env fuel false (replicate n no_connection ++ (connects attaches ∷ rest))) _
        (connect_loop-tries env fuel attaches addrs served false n rest w)

  start_beacon_returns :
      (n : ℕ) (rest : List Attempt) (w : World)
      → start_beacon env (finds_hostapd fuel n attaches rest) w
        ≡ done tt (record w { out = w.out ++ search n; connected = true; semaphore = 0 })
  unfolding start_beacon sem_post sem_wait
  start_beacon_returns n rest w =
      let v = sem_post (record w { out = w.out ++ search n; connected = true; semaphore = 0 }) in
      >>=-done (ap_interface_init env (finds_hostapd fuel n attaches rest)) (λ _. sem_wait)
        (init_returns n rest (record w { semaphore = 0 }))
      ∙ acquire_posted v.schedule v (omega arith)

-- The lines that the command line makes the program print.
reminders : Bool → List Effect
reminders true = printed beacon_reminder ∷ []
reminders false = printed beacon_reminder ∷ printed beacon_single_warning ∷ []

own-reminders : (packs : Bool) → own (reminders packs) ≡ []
unfolding own reminders
own-reminders true = refl
own-reminders false = refl

-- What `check_options` does behind the lines on beacons.
rest_of_check : Config → M Config
rest_of_check c = do
  when (c.use_btl && (c.use_bt4 || c.use_bt5)) (say api_conflict >> exit exit_failure)
  when ((c.use_btl || c.use_bt4) && c.use_packs) (say bt4_pack_conflict >> exit exit_failure)
  when (c.use_bt4 && c.use_bt5) (say bt4_bt5_warning)
  when (c.use_bt5 && not c.use_packs) (say bt5_single_warning)
  when (not c.use_beacon && not c.use_btl && not c.use_bt4 && not c.use_bt5)
      (say usage >> exit exit_success)
  when c.use_gps (say gps_warning)
  pure c

check_options_wifi :
    (c : Config) (w : World)
    → OnlyWifi c
    → c.use_gps ≡ false
    → check_options c w ≡ done c (record w { out = w.out ++ reminders c.use_packs })
unfolding check_options reminders rest_of_check
check_options_wifi c w only gps = elim (Bool-cases c.use_packs) [
  | inl packs ↦
      when_on c.use_beacon _ _ w _ only.beacon refl
      ∙ when_off (c.use_beacon && not c.use_packs) _ _ v (ground (arith, packs))
      ∙ unconcerned v
      ∙ ap (λ b. done c (record w { out = w.out ++ reminders b })) (sym packs)
  | inr single ↦
      when_on c.use_beacon _ _ w _ only.beacon refl
      ∙ when_on (c.use_beacon && not c.use_packs) _ _ v _ (ground (arith, only.beacon, single)) refl
      ∙ unconcerned (record v { out = v.out ++ (printed beacon_single_warning ∷ []) })
      ∙ ap (λ o. done c (record w { out = o }))
          (append_assoc w.out (printed beacon_reminder ∷ []) (printed beacon_single_warning ∷ []))
      ∙ ap (λ b. done c (record w { out = w.out ++ reminders b })) (sym single)
]
  where
    v : World
    v = record w { out = w.out ++ (printed beacon_reminder ∷ []) }

    unconcerned : (u : World) → rest_of_check c u ≡ done c u
    unconcerned u =
        when_off (c.use_btl && (c.use_bt4 || c.use_bt5)) _ _ u (ground (arith, only.btl))
        ∙ when_off ((c.use_btl || c.use_bt4) && c.use_packs) _ _ u
            (ground (arith, only.btl, only.bt4))
        ∙ when_off (c.use_bt4 && c.use_bt5) _ _ u (ground (arith, only.bt4))
        ∙ when_off (c.use_bt5 && not c.use_packs) _ _ u (ground (arith, only.bt5))
        ∙ when_off (not c.use_beacon && not c.use_btl && not c.use_bt4 && not c.use_bt5) _ _ u
            (ground (arith, only.beacon))
        ∙ when_off c.use_gps _ _ u gps

no_beacon : (chosen [] zero_config).use_beacon ≡ true → ⊥
unfolding chosen has
no_beacon e = ground (arith, e)

parse_command_line_wifi :
    (args : List (List ℕ)) (w : World)
    → OnlyWifi (chosen args zero_config)
    → (chosen args zero_config).use_gps ≡ false
    → parse_command_line args zero_config w
      ≡ done
          (chosen args zero_config)
          (record w { out = w.out ++ reminders (chosen args zero_config).use_packs })
unfolding parse_command_line
parse_command_line_wifi [] w only gps = absurd (no_beacon only.beacon)
parse_command_line_wifi (arg ∷ args) w only gps =
    ap (λ c. check_options c w) (set_options-chosen (arg ∷ args) zero_config)
    ∙ check_options_wifi (chosen (arg ∷ args) zero_config) w only gps

else_returns :
    {A : Type 0} (b : Bool) (m k : M A) (w : World) → b ≡ false → (if b then m else k) w ≡ k w
else_returns true m k w e = absurd (ground (arith, e))
else_returns false m k w e = refl

own-started :
    (out asked : List Effect) (packs : Bool) (n : ℕ)
    → own ((out ++ reminders packs) ++ tries asked false n) ≡ own out ++ own asked
own-started out asked packs n =
    own-append (out ++ reminders packs) (tries asked false n)
    ∙ ap (λ l. own (out ++ reminders packs) ++ l) (own-tries asked false n)
    ∙ ap (λ l. l ++ own asked)
        (own-append out (reminders packs)
          ∙ ap (λ l. own out ++ l) (own-reminders packs)
          ∙ append-nil (own out))

module _ (env : Env) (other : Handler → List (List ℕ) → M Bool) {F : Type 0} (odid : Odid F) where
  -- For arguments that choose Wi-Fi beacons and no other transport and no GPS, a thread that starts
  -- and finds hostapd after any number of attempts, pings that are all answered whenever the
  -- other thread runs, and, where the interface can be attached to, hostapd's answers for its
  -- stations, and any answers of hostapd to the program's commands, where a pack states
  -- no more messages than a pack can have, at most 9: `main` exits with code 0, and the requests
  -- but the pings that the program has made of hostapd are just those for its stations, if it was
  -- attached to, and then the nine messages of the example data with
  -- the counters of their types, or the pack of these ten times with a counter that goes up,
  -- each followed by `UPDATE_BEACON`.
  pub main-Serves :
      (fuel n : ℕ) (attaches : Bool) (addrs : List (List ℕ)) (attempts : List Attempt) (gpsd : Gpsd)
      (rounds : List (Option (UasData F))) (args : List (List ℕ)) (w : World)
      → let config = set_handles env other odid (chosen args zero_config) in
        let u = example_data env other odid config in
        OnlyWifi (chosen args zero_config)
        → (chosen args zero_config).use_gps ≡ false
        → PackFits env other odid u
        → w.cli_quit ≡ false
        → AnsweredAll w.schedule
        → ServesStations env fuel attaches addrs
        → (v : World) × (main env other odid
              (finds_hostapd fuel n attaches attempts)
              gpsd
              rounds
              args
              w
            ≡ exited exit_success v)
          × (own v.out
              ≡ (own w.out ++ station_requests attaches addrs)
                ++ run_requests env other odid u config)
  unfolding main
  main-Serves fuel n attaches addrs attempts gpsd rounds args w only gps fits going answered
        served =
      let parsed = chosen args zero_config in
      let config = set_handles env other odid parsed in
      let u = example_data env other odid config in
      let v = record w { out = w.out ++ reminders parsed.use_packs } in
      let asked = asks env attaches addrs in
      let ready = record v {
        out = v.out ++ tries asked false n;
        connected = true;
        semaphore = 0;
      } in
      let (last, ended, requested) =
        transmit_without_gps-Serves env other odid u config ready
          (record { beacon = only.beacon; btl = only.btl; bt4 = only.bt4; bt5 = only.bt5 }) gps fits
          (record { connected = refl; going = going; answered = answered }) in
      (
        last,
        >>=-done (parse_command_line args zero_config) _ (parse_command_line_wifi args w only gps)
            ∙ when_on config.use_beacon _ _ v ready only.beacon
                (start_beacon_returns env fuel attaches addrs served n attempts v)
            ∙ when_off (any_bluetooth config) _ _ ready
                (ground (arith, only.btl, only.bt4, only.bt5))
            ∙ else_returns config.use_gps _ _ ready gps
            ∙ ended,
        requested
            ∙ ap (λ l. l ++ run_requests env other odid u config)
                (own-started w.out asked parsed.use_packs n
                  ∙ ap (λ l. own w.out ++ l) (own-asks env attaches addrs)),
      )
