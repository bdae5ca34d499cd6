-- ===== src/Bluetooth/Trace/Single.antt =====
-- The functions that send one command, and those of bluetooth.h that send a few.
use transmitter_linux.Common.{
  ℕ, ◌+◌, ◌-◌, refl, Bool, true, false, not, ◌&&◌, ◌||◌, ◌==◌, ltb, List, [], ◌∷◌, ◌++◌,
  if◌then◌else◌, length, take, drop, replicate, get_or, copy_at,
}
use transmitter_linux.Machine.{
  World, Outcome, exited, blocked, M, say, exit_failure, Env, bad_opcode, command_error,
  unknown_event, tx_power, event_read_failed, feature, feature_bytes, unknown_features,
}
use transmitter_linux.Features.{
  print_bt_le_features, say_features, print_bitfield, collect_features, features_le,
}
use transmitter_linux.Bluetooth.Hci.{
  report, command_complete, received, handle_event, Wait, event, gave_up, waiting, wait_event,
  after_wait, send_cmd,
}
use transmitter_linux.Bluetooth.Trace.Acts.{
  HciCommand, hci, sent_by, Ends, Sends, Sends->>, Sends-skip, Sends-undefined, Sends-say,
  Sends-when_nil, Ends-command, SentPart-none, Ends-after, Sent-same,
}

say_features-Sends : (names : List (List ℕ)) → Sends (say_features names) []
unfolding say_features
say_features-Sends [] = Sends-skip
say_features-Sends (s ∷ rest) = Sends->> (Sends-say (feature s)) (say_features-Sends rest)

print_bt_le_features-Sends : (array : List ℕ) → Sends (print_bt_le_features array) []
unfolding print_bt_le_features
print_bt_le_features-Sends array =
    let bytes = take 8 array in
    let result = print_bitfield (collect_features 0 0 bytes) features_le in
    Sends->> (Sends-say (feature_bytes bytes)) (
      Sends->> (say_features-Sends result.1)
        (Sends-when_nil (not (result.0 == 0)) (Sends-say (unknown_features result.0))))

module _ (env : Env) where
  report-Sends : (ocf : ℕ) (rparam : List ℕ) → Sends (report env ocf rparam) []
  unfolding report
  report-Sends ocf rparam =
      let status = get_or rparam 0 0 in
      Sends->>
        (Sends-when_nil (not (status == 0) && not (ocf == 0x3C))
          (Sends-say (command_error ocf status)))
        (Sends->>
          (Sends-when_nil (ocf == env.ocf_le_read_local_supported_features)
            (print_bt_le_features-Sends (drop 1 rparam)))
          (Sends-when_nil (ocf == 0x36) (Sends-say (tx_power (get_or rparam 1 0)))))

  command_complete-Sends :
      (ogf ocf len : ℕ) (ptr : List ℕ) → Sends (command_complete env ogf ocf len ptr) []
  unfolding command_complete
  command_complete-Sends ogf ocf len ptr =
      let skipped = 1 + env.hci_event_hdr_size + env.evt_cmd_complete_size in
      Sends->>
        (Sends-when_nil (not (env.cc_opcode ptr == env.opcode ogf ocf))
          (Sends-say (bad_opcode (env.cc_opcode ptr) (env.opcode ogf ocf))))
        (Sends->> (Sends-when_nil (ltb len skipped || ltb 10 (len - skipped)) Sends-undefined) (
          report-Sends ocf (
            copy_at (replicate 10 0) 0
              (take (len - skipped) (drop env.evt_cmd_complete_size ptr)))))

  Sends-if :
      (b : Bool) {m k : M (Unit {0})} → Sends m [] → Sends k [] → Sends (if b then m else k) []
  Sends-if true p q = p
  Sends-if false p q = q

  handle_event-Sends : (ogf ocf : ℕ) (bytes : List ℕ) → Sends (handle_event env ogf ocf bytes) []
  unfolding handle_event
  handle_event-Sends ogf ocf bytes =
      let buf = received env.hci_max_event_size bytes in
      let evt = env.hdr_evt (drop 1 buf) in
      Sends-if (evt == env.evt_cmd_complete)
        (command_complete-Sends ogf ocf (length (take env.hci_max_event_size bytes))
          (drop (1 + env.hci_event_hdr_size) buf))
        (Sends-say (unknown_event evt))

  after_wait-Ends : (ogf ocf : ℕ) (x : Wait) (w : World) → Ends w [] (after_wait env ogf ocf x w)
  unfolding after_wait
  after_wait-Ends ogf ocf waiting w =
      Ends-after [] [] (Sent-same w (record w { reads = [] }) refl refl)
        (blocked (record w { reads = [] })) (SentPart-none (record w { reads = [] }) [])
  after_wait-Ends ogf ocf (gave_up rest) w =
      Ends-after [] [] (Sent-same w (record w { reads = rest }) refl refl)
        (say event_read_failed (record w { reads = rest }))
        ((Sends-say event_read_failed).ends (record w { reads = rest }))
  after_wait-Ends ogf ocf (event bytes rest) w =
      Ends-after [] [] (Sent-same w (record w { reads = rest }) refl refl)
        (handle_event env ogf ocf bytes (record w { reads = rest }))
        ((handle_event-Sends ogf ocf bytes).ends (record w { reads = rest }))

  accept :
      (b : Bool) (w : World) (c : HciCommand) (o : Outcome (Unit {0}))
      → Ends (record w { out = w.out ++ (sent_by w.device_descriptor c ∷ []) }) [] o
      → Ends w (c ∷ []) (if b then o else exited exit_failure w)
  accept true w c o h = Ends-command w c o h
  accept false w c o h = SentPart-none w (c ∷ [])

  -- A command on the open device.
  abbrev pub on_device : ℕ → ℕ → List ℕ → M (Unit {0})
  on_device ogf ocf parameters w = send_cmd env w.device_descriptor ogf ocf parameters w

  pub send_cmd-Sends :
      (ogf ocf : ℕ) (parameters : List ℕ)
      → Sends (on_device ogf ocf parameters) (hci ogf ocf parameters ∷ [])
  unfolding send_cmd
  send_cmd-Sends ogf ocf parameters = record {
    ends = λ w.
        let c = hci ogf ocf parameters in
        let w' : World = record w { out = w.out ++ (sent_by w.device_descriptor c ∷ []) } in
        accept (env.hci_send_cmd w.out (sent_by w.device_descriptor c)) w c
          (after_wait env ogf ocf (wait_event w.reads) w')
          (after_wait-Ends ogf ocf (wait_event w.reads) w');
  }
