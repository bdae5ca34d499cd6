-- ===== src/Hostapd/Walking.antt =====
-- What the loops over hostapd's stations find.
use mathlib.Core.List.{append_assoc, append-nil}
use transmitter_linux.Common.{
  ℕ, zero, suc, ◌<◌, ◌≤◌, ◌≡◌, refl, sym, ◌∙◌, ap, Bool, true, false, not, ◌&&◌, ◌||◌, ◌==◌, leb,
  List, [], ◌∷◌, ◌++◌, Option, none, some, codes, length, take_all, arith, if◌then◌else◌,
}
use transmitter_linux.Machine.{
  World, Effect, M, pure, done, Env, replied, ctrl_request, printed, station_line, say, when, skip,
  >>=-done,
}
use transmitter_linux.Hostapd.Commands.{
  first_line, is_fail, same_text, is_empty, words, snprintf, after_sta, wpa_ctrl_command_sta,
  next_stations, all_stations, hostapd_cli_cmd_list_sta, update_stations, keep_stations,
}

-- The digits and colons of an address as hostapd writes it.
abbrev pub address_char : ℕ → Bool
address_char c = (leb 48 c && leb c 58) || (leb 65 c && leb c 70) || (leb 97 c && leb c 102)

abbrev pub AddressText : List ℕ → Type 0
AddressText [] = Unit
AddressText (c ∷ text) = (address_char c ≡ true) × AddressText text

-- An address of at most 31 digits and colons, or the empty text in its place.
abbrev pub IsAddress : List ℕ → Type 0
IsAddress addr = (length addr < 32) × AddressText addr

-- The end of a reply, or the rest behind a line.
abbrev pub EndsLine : List ℕ → Type 0
EndsLine [] = Unit
EndsLine (c ∷ more) = c ≡ 10

-- The request that comes after the one for an address.
abbrev pub next_cmd : List ℕ → List ℕ
next_cmd addr = words (codes "STA-NEXT") addr

-- Asked by `cmd`, hostapd answers with the first address on a line, asked for the one behind an
-- address with the next one, and asked for the one behind the last with "FAIL". An empty reply
-- counts as an empty address: hostapd gives one where there is no further station, and "FAIL" when
-- it is asked for the one behind that.
abbrev pub Serves : Env → List ℕ → List (List ℕ) → Type 0
Serves env cmd [] =
    (out : List Effect) → env.wpa_ctrl_request out cmd ≡ replied (codes "FAIL" ++ (10 ∷ []))
Serves env cmd (addr ∷ addrs) =
    IsAddress addr
    × ((out : List Effect)
        → (more : List ℕ) × (env.wpa_ctrl_request out cmd ≡ replied (addr ++ more)) × EndsLine more)
    × Serves env (next_cmd addr) addrs

first_line-address :
    (addr more : List ℕ) → AddressText addr → EndsLine more → first_line (addr ++ more) ≡ addr
unfolding first_line
first_line-address [] [] h line = refl
first_line-address [] (c ∷ more) h line = rw line refl
first_line-address (c ∷ addr) more h line =
    let other : (c == 0 || c == 10) ≡ false = ground (arith, h.0) in
    rw other (ap (λ l. c ∷ l) (first_line-address addr more h.1 line))

is_fail-address :
    (addr more : List ℕ) → AddressText addr → EndsLine more → is_fail (addr ++ more) ≡ false
unfolding is_fail same_text
is_fail-address [] [] h line = refl
is_fail-address [] (c ∷ more) h line = rw line refl
is_fail-address (f ∷ []) [] h line = ground arith
is_fail-address (f ∷ []) (c ∷ more) h line = ground (arith, line)
is_fail-address (f ∷ a ∷ []) [] h line = ground arith
is_fail-address (f ∷ a ∷ []) (c ∷ more) h line = ground (arith, line)
is_fail-address (f ∷ a ∷ i ∷ addr) more h line =
    let other : (i == 73) ≡ false = ground (arith, h.1.1.0) in ground (arith, other)

-- The line for an address, if it is not empty.
abbrev pub line_of : List ℕ → List Effect
line_of a = if is_empty a then [] else printed (station_line a) ∷ []

abbrev pub log : World → List Effect → World
log w effects = record w { out = w.out ++ effects }

module _ (env : Env) where
  sta_served :
      (cmd addr more : List ℕ) (w : World)
      → w.connected ≡ true
      → IsAddress addr
      → env.wpa_ctrl_request w.out cmd ≡ replied (addr ++ more)
      → EndsLine more
      → wpa_ctrl_command_sta env false cmd w ≡ done (some addr) (log w (ctrl_request cmd ∷ []))
  unfolding wpa_ctrl_command_sta after_sta
  sta_served cmd addr more w on good answered line =
      rw
        (
          on,
          answered,
          is_fail-address addr more good.1 line,
          first_line-address addr more good.1 line,
          take_all 31 addr (omega (arith, good.0)),
        )
        refl

  sta_ended :
      (cmd : List ℕ) (w : World)
      → w.connected ≡ true
      → env.wpa_ctrl_request w.out cmd ≡ replied (codes "FAIL" ++ (10 ∷ []))
      → wpa_ctrl_command_sta env false cmd w ≡ done none (log w (ctrl_request cmd ∷ []))
  unfolding wpa_ctrl_command_sta after_sta is_fail
  sta_ended cmd w on answered = rw (on, answered) refl

  sent : (addr : List ℕ) → IsAddress addr → snprintf 64 (next_cmd addr) ≡ next_cmd addr
  sent addr good = take_all 63 (next_cmd addr) (omega (arith, good.0))

  -- What is noted for each address, with the request behind it.
  abbrev pub visits : (List ℕ → List Effect) → List (List ℕ) → List Effect
  visits note [] = []
  visits note (addr ∷ addrs) = note addr ++ (ctrl_request (next_cmd addr) ∷ visits note addrs)

  next_stations_lem :
      (fuel : ℕ) (each : List ℕ → M (Unit {0})) (note : List ℕ → List Effect)
      → ((a : List ℕ) (v : World) → each a v ≡ done tt (log v (note a)))
      → (addr : List ℕ) (addrs : List (List ℕ)) (w : World) → length addrs < fuel
      → w.connected ≡ true
      → IsAddress addr
      → Serves env (next_cmd addr) addrs
      → next_stations env fuel false each addr w
        ≡ done (addr ∷ addrs) (log w (visits note (addr ∷ addrs)))
  unfolding next_stations
  next_stations_lem zero each note acts addr addrs w enough on good serves = absurd (omega arith)
  next_stations_lem (suc fuel) each note acts addr [] w enough on good serves =
      >>=-done (each addr) _ (acts addr w)
      ∙ >>=-done (wpa_ctrl_command_sta env false (snprintf 64 (next_cmd addr))) _ (
          ap (λ c. wpa_ctrl_command_sta env false c (log w (note addr))) (sent addr good)
          ∙ sta_ended (next_cmd addr) (log w (note addr)) on (serves (w.out ++ note addr)))
      ∙ ap (λ o. done (addr ∷ []) (record w { out = o }))
          (append_assoc w.out (note addr) (ctrl_request (next_cmd addr) ∷ []))
  next_stations_lem (suc fuel) each note acts addr (a ∷ addrs) w enough on good serves =
      let v = log w (note addr) in
      let answer = serves.1 (w.out ++ note addr) in
      >>=-done (each addr) _ (acts addr w)
      ∙ >>=-done (wpa_ctrl_command_sta env false (snprintf 64 (next_cmd addr))) _ (
          ap (λ c. wpa_ctrl_command_sta env false c v) (sent addr good)
          ∙ sta_served (next_cmd addr) a answer.0 v on serves.0 answer.1 answer.2)
      ∙ >>=-done (next_stations env fuel false each a) (λ addrs. pure (addr ∷ addrs))
          (next_stations_lem fuel each note acts a addrs (log v (ctrl_request (next_cmd addr) ∷ []))
            (omega arith) on serves.0 serves.2)
      ∙ ap (λ o. done (addr ∷ a ∷ addrs) (record w { out = o }))
          (append_assoc (w.out ++ note addr) (ctrl_request (next_cmd addr) ∷ [])
              (visits note (a ∷ addrs))
            ∙ append_assoc w.out (note addr)
                (ctrl_request (next_cmd addr) ∷ visits note (a ∷ addrs)))

  filled : Option (List (List ℕ)) → M (List (List ℕ))
  filled none = pure []
  filled (some addrs) = pure (keep_stations addrs)

  abbrev found : List (List ℕ) → Option (List (List ℕ))
  found [] = none
  found (addr ∷ addrs) = some (addr ∷ addrs)

  all_stations_lem :
      (fuel : ℕ) (each : List ℕ → M (Unit {0})) (note : List ℕ → List Effect)
      → ((a : List ℕ) (v : World) → each a v ≡ done tt (log v (note a)))
      → (addrs : List (List ℕ)) (w : World) → length addrs ≤ fuel
      → w.connected ≡ true
      → Serves env (codes "STA-FIRST") addrs
      → all_stations env fuel false each w
        ≡ done (found addrs) (log w (ctrl_request (codes "STA-FIRST") ∷ visits note addrs))
  unfolding all_stations
  all_stations_lem fuel each note acts [] w enough on serves =
      >>=-done (wpa_ctrl_command_sta env false (codes "STA-FIRST")) _
        (sta_ended (codes "STA-FIRST") w on (serves w.out))
  all_stations_lem fuel each note acts (addr ∷ addrs) w enough on serves =
      let answer = serves.1 w.out in
      let v = log w (ctrl_request (codes "STA-FIRST") ∷ []) in
      >>=-done (wpa_ctrl_command_sta env false (codes "STA-FIRST")) _
        (sta_served (codes "STA-FIRST") addr answer.0 w on serves.0 answer.1 answer.2)
      ∙ >>=-done (next_stations env fuel false each addr) (λ addrs. pure (some addrs))
          (next_stations_lem fuel each note acts addr addrs v (omega arith) on serves.0 serves.2)
      ∙ ap (λ o. done (some (addr ∷ addrs)) (record w { out = o }))
          (append_assoc w.out (ctrl_request (codes "STA-FIRST") ∷ []) (visits note (addr ∷ addrs)))

  no_log : (w : World) → w ≡ log w []
  no_log w = ap (λ o. record w { out = o }) (sym (append-nil w.out))

  print_station :
      (a : List ℕ) (v : World)
      → when (not (is_empty a)) (say (station_line a)) v ≡ done tt (log v (line_of a))
  print_station [] v = ap (done tt) (no_log v)
  print_station (c ∷ a) v = refl

  pub update_stations_lem :
      (addrs : List (List ℕ)) (fuel : ℕ) (w : World)
      → length addrs ≤ fuel
      → w.connected ≡ true
      → Serves env (codes "STA-FIRST") addrs
      → update_stations env fuel w
        ≡ done
            (keep_stations addrs)
            (log w (ctrl_request (codes "STA-FIRST") ∷ visits (λ a. []) addrs))
  unfolding update_stations filled keep_stations
  update_stations_lem addrs fuel w enough on serves =
      >>=-done (all_stations env fuel false (λ addr. skip)) _ (
        all_stations_lem fuel (λ addr. skip) (λ a. []) (λ a v. ap (done tt) (no_log v)) addrs w
          enough on serves)
      ∙ keep addrs _
    where
      keep :
          (addrs' : List (List ℕ)) (v : World)
          → filled (found addrs') v ≡ done (keep_stations addrs') v
      keep [] v = refl
      keep (addr ∷ addrs') v = refl

  -- While there is a connection and hostapd, asked for the first station and then for the one
  -- behind each, answers with the addresses `addrs` on a line each or with an empty reply, as it
  -- does behind the last station, and at last with "FAIL": `list_sta` returns 0 after one request
  -- for each of these answers and one more, having printed each address that is not empty in this
  -- order, and `update_stations` returns after the same requests, having filled its list with just
  -- these addresses. As many turns of the loop as there are answers before "FAIL" are enough.
  pub list_sta_and_update_stations_lem :
      (addrs : List (List ℕ)) (fuel : ℕ) (w : World)
      → length addrs ≤ fuel
      → w.connected ≡ true
      → Serves env (codes "STA-FIRST") addrs
      → let first = ctrl_request (codes "STA-FIRST") in
        (hostapd_cli_cmd_list_sta env fuel w ≡ done true (log w (first ∷ visits line_of addrs)))
        × (update_stations env fuel w
            ≡ done (keep_stations addrs) (log w (first ∷ visits (λ a. []) addrs)))
  unfolding hostapd_cli_cmd_list_sta
  list_sta_and_update_stations_lem addrs fuel w enough on serves = (
    >>=-done
        (all_stations env fuel false (λ addr. when (not (is_empty addr)) (say (station_line addr))))
        (λ walked. pure true)
        (all_stations_lem fuel (λ addr. when (not (is_empty addr)) (say (station_line addr)))
          line_of print_station addrs w enough on serves),
    update_stations_lem addrs fuel w enough on serves,
  )
