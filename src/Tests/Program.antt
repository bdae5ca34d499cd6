-- ===== src/Tests/Program.antt =====
-- transmit.c and gpsmod.c on concrete inputs.
use transmitter_linux.Common.{
  ◌⊎◌, ℕ, ◌≡◌, refl, ◌≤◌, true, false, List, [], ◌∷◌, ◌++◌, codes, replicate, arith,
}
use transmitter_linux.Machine.{ReadResult, World, exited, fault, Returns, printed, gps_unavailable}
use transmitter_linux.Gps.{
  gps_loop, loop_start, finished, not_ready, read_failed, killed, process_gps_data,
}
use transmitter_linux.Gps.Update.{IsFiniteLocation, process_gps_data_lem}
use transmitter_linux.Gps.Retries.{gps_loop-finished}
use transmitter_linux.Transmit.Args.{parse_command_line, zero_config, zero_counters}
use transmitter_linux.Transmit.Send.{send_single_messages, send_packs}
use transmitter_linux.Transmit.Main.{
  example_data, set_handles, transmit_with_gps, main, transmit_without_gps,
}
use transmitter_linux.Transmit.Props.CommandLine.{has, Verdict, chosen, parse_command_line-Verdict}
use transmitter_linux.Transmit.Props.Counting.{
  after_singles, send_single_messages-counters, send_packs-counters,
}
use transmitter_linux.Utils.{Config}
use transmitter_linux.Bluetooth.Keeping.{Leaves}
use transmitter_linux.Transmit.Props.PackRounds.{send_packs-Leaves}
use transmitter_linux.Beacon.Answering.Progress.{own}
use transmitter_linux.Transmit.Props.WifiRun.{run_requests}
use transmitter_linux.Transmit.Props.WifiMain.{station_requests, finds_hostapd, main-Serves}
use transmitter_linux.Transmit.Props.Exiting.{Exits, transmit_without_gps-Exits}
use transmitter_linux.Transmit.Props.Whole.{transmit_with_gps_unavailable}
use transmitter_linux.Tests.Hostapd.{station_env, stations, stations-Serves}
use transmitter_linux.Tests.Setup.{
  test_env, answer, answered, test_other, test_world, pack_config, gps_config, test_odid, test_data,
  test_gpsd, test_fix, btl_config, btl_world,
}

parse_command_line-Verdict_example :
    Verdict
      (chosen (codes "b" ∷ codes "5" ∷ codes "p" ∷ []) zero_config)
      (parse_command_line (codes "b" ∷ codes "5" ∷ codes "p" ∷ []) zero_config test_world)
parse_command_line-Verdict_example =
    parse_command_line-Verdict (codes "b" ∷ codes "5" ∷ codes "p" ∷ []) test_world

send_single_messages-counters_example :
    Returns
      (λ c. c ≡ record pack_config { msg_counters = after_singles pack_config.msg_counters })
      (send_single_messages test_env test_other test_odid test_data pack_config test_world)
send_single_messages-counters_example =
    send_single_messages-counters test_env test_other test_odid test_data pack_config test_world

-- 250 and 20 more is 14, modulo 256.
send_packs-counters_example :
    Returns
      (λ c. c ≡ record pack_config { msg_counters = record zero_counters { packed = 14 } })
      (send_packs test_env test_other test_odid test_data pack_config test_world)
send_packs-counters_example =
    send_packs-counters test_env test_other test_odid test_data pack_config test_world (omega arith)

transmit_with_gps_unavailable_example :
    transmit_with_gps test_env test_other test_odid test_gpsd [] gps_config test_world
    ≡ fault (record test_world { out = printed gps_unavailable ∷ [] })
transmit_with_gps_unavailable_example =
    transmit_with_gps_unavailable test_env test_other test_odid test_gpsd [] gps_config test_world
      (record test_world { out = printed gps_unavailable ∷ [] }) refl refl refl

-- The speed of this report is not finite.
process_gps_data_lem_example :
    IsFiniteLocation test_odid test_gpsd
      (process_gps_data test_odid test_gpsd (test_fix 3) test_data).location
    × ((test_gpsd.mode_2d ≤ 3)
        ⊎ (process_gps_data test_odid test_gpsd (test_fix 3) test_data ≡ test_data))
process_gps_data_lem_example =
    process_gps_data_lem test_odid test_gpsd (test_fix 3) test_data
      (record {
        track = λ e. e;
        alt_msl = λ e. e;
        altitude = λ e. e;
        speed = λ e. e;
        climb = λ e. e;
      })
      (record {
        direction = refl;
        speed_horizontal = refl;
        speed_vertical = refl;
        altitude_baro = refl;
        altitude_geo = refl;
      })
      (omega arith)

gps_loop-finished_example :
    ((gps_loop test_odid test_gpsd (loop_start test_data) (replicate 61 not_ready ++ (killed ∷ []))
        ≡ gps_loop test_odid test_gpsd
            (record (loop_start test_data) { retries = 61 })
            (killed ∷ []))
      × (gps_loop test_odid test_gpsd
            (loop_start test_data)
            (replicate 62 not_ready ++ (killed ∷ []))
          ≡ finished 1 test_data))
    × ((gps_loop test_odid test_gpsd
            (loop_start test_data)
            (replicate 6 read_failed ++ (killed ∷ []))
          ≡ gps_loop test_odid test_gpsd
              (record (loop_start test_data) { read_retries = 6 })
              (killed ∷ []))
        × (gps_loop test_odid test_gpsd
              (loop_start test_data)
              (replicate 7 read_failed ++ (killed ∷ []))
            ≡ finished 1 test_data))
gps_loop-finished_example = gps_loop-finished test_odid test_gpsd test_data (killed ∷ [])

transmit_without_gps-Exits_example :
    Exits 0 [] (transmit_without_gps test_env test_other test_odid test_data btl_config btl_world)
transmit_without_gps-Exits_example =
    transmit_without_gps-Exits test_env (λ out e. refl) test_other test_odid test_data btl_config
      btl_world [] refl refl refl
      (answered 8 32 12 _ _ (
        answered 8 32 11 _ _ (
          answered 8 32 10 _ _ (
            answered 8 32 9 _ _ (
              answered 8 32 8 _ _ (
                answered 8 32 7 _ _ (
                  answered 8 32 6 _ _ (
                    answered 8 32 5 _ _ (
                      answered 8 32 4 _ _ (
                        answered 10 32 3 _ _ (
                          answered 57 32 2 _ _
                            (answered 60 32 1 _ _ (answered 60 32 0 _ _ refl)))))))))))))

-- Packs over Bluetooth 5 alone.
bt5_config : Config
bt5_config = record pack_config { use_beacon = false }

pack_answers : List ReadResult
pack_answers = replicate 10 (answer 55 32)

send_packs-Leaves_example : Leaves [] (
    send_packs test_env test_other test_odid test_data bt5_config
      (record test_world { reads = pack_answers }))
unfolding bt5_config pack_answers
send_packs-Leaves_example =
    send_packs-Leaves test_env (λ out e. refl) test_other test_odid test_data bt5_config
      (record test_world { reads = pack_answers }) []
      (
        (λ b. refl),
        (λ b. refl),
        (λ b. refl),
        (λ b. refl),
        (λ b. refl),
        (λ b. refl),
        (λ b. refl),
        (λ b. refl),
        (λ b. refl),
        (λ p b. refl),
      )
      refl refl
      (answered 55 32 9 _ _ (
        answered 55 32 8 _ _ (
          answered 55 32 7 _ _ (
            answered 55 32 6 _ _ (
              answered 55 32 5 _ _ (
                answered 55 32 4 _ _ (
                  answered 55 32 3 _ _
                    (answered 55 32 2 _ _ (answered 55 32 1 _ _ (answered 55 32 0 _ _ refl))))))))))

-- Packs over Wi-Fi alone; hostapd is there at the third attempt.
wifi_args : List (List ℕ)
wifi_args = codes "b" ∷ codes "p" ∷ []

wifi_config : Config
unfolding wifi_args
wifi_config = set_handles station_env test_other test_odid (chosen wifi_args zero_config)

main-Serves_example :
    (v : World) × (main station_env test_other test_odid
        (finds_hostapd 3 2 true [])
        test_gpsd
        []
        wifi_args
        test_world
      ≡ exited 0 v)
    × (own v.out
        ≡ (own test_world.out ++ station_requests true stations)
          ++ run_requests station_env test_other test_odid
              (example_data station_env test_other test_odid wifi_config)
              wifi_config)
unfolding wifi_args wifi_config chosen has
main-Serves_example =
    main-Serves station_env test_other test_odid 3 2 true stations [] test_gpsd [] wifi_args
      test_world (record { beacon = refl; btl = refl; bt4 = refl; bt5 = refl }) refl
      (omega arith, omega arith) refl tt (omega arith, stations-Serves)
