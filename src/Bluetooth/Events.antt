-- ===== src/Bluetooth/Events.antt =====
-- How `send_cmd` ends, by what the controller answers.
use mathlib.Core.Bool.{true≢false}
use mathlib.Core.Path.{subst}
use transmitter_linux.Common.{
  ℕ, ◌+◌, ◌-◌, ◌≤◌, ◌<◌, ◌≡◌, refl, ◌∙◌, ap, ◌⊎◌, Bool, true, false, not, ◌&&◌, ◌||◌, ◌==◌, ltb,
  List, [], ◌∷◌, ◌++◌, if◌then◌else◌, length, take, drop, replicate, get_or, copy_at, arith,
  take_all, sym, ==_iff,
}
use transmitter_linux.Machine.{
  ReadResult, read_error, bytes_read, eagain, eintr, other_errno, World, Outcome, done, exited,
  blocked, fault, M, when, say, undefined, exit_failure, Env, bad_opcode, command_error,
  unknown_event, tx_power, hci_command,
}
use transmitter_linux.Bluetooth.Hci.{
  report, command_complete, received, handle_event, event, wait_event, after_wait, send_cmd,
}
use transmitter_linux.Bluetooth.Keeping.{
  Leaves, Keeps, Keeps->>, Keeps-say, Keeps-skip, Keeps-when, print_bt_le_features-Keeps,
}

-- Reads that were interrupted or found nothing yet.
abbrev pub Interrupted : List ReadResult → Type 0
Interrupted [] = Unit
Interrupted (read_error eagain ∷ rs) = Interrupted rs
Interrupted (read_error eintr ∷ rs) = Interrupted rs
Interrupted (read_error other_errno ∷ rs) = ⊥
Interrupted (bytes_read bytes ∷ rs) = ⊥

wait_event-append :
    (rs rest : List ReadResult) → Interrupted rs → wait_event (rs ++ rest) ≡ wait_event rest
unfolding wait_event
wait_event-append [] rest h = refl
wait_event-append (read_error eagain ∷ rs) rest h = wait_event-append rs rest h
wait_event-append (read_error eintr ∷ rs) rest h = wait_event-append rs rest h
wait_event-append (read_error other_errno ∷ rs) rest h = absurd h
wait_event-append (bytes_read bytes ∷ rs) rest h = absurd h

module _ (env : Env) where
  report-Keeps : (ocf : ℕ) (rparam : List ℕ) → Keeps (report env ocf rparam)
  unfolding report
  report-Keeps ocf rparam =
      let status = get_or rparam 0 0 in
      Keeps->>
        (Keeps-when (not (status == 0) && not (ocf == 0x3C)) (Keeps-say (command_error ocf status)))
        (Keeps->>
          (Keeps-when (ocf == env.ocf_le_read_local_supported_features)
            (print_bt_le_features-Keeps (drop 1 rparam)))
          (Keeps-when (ocf == 0x36) (Keeps-say (tx_power (get_or rparam 1 0)))))

  -- The bytes in front of the return parameters.
  abbrev pub header : ℕ
  header = 1 + env.hci_event_hdr_size + env.evt_cmd_complete_size

  command_complete-Keeps :
      (ogf ocf len : ℕ) (ptr : List ℕ)
      → header ≤ len
      → len ≤ header + 10
      → Keeps (command_complete env ogf ocf len ptr)
  unfolding command_complete
  command_complete-Keeps ogf ocf len ptr low high =
      Keeps->>
        (Keeps-when (not (env.cc_opcode ptr == env.opcode ogf ocf))
          (Keeps-say (bad_opcode (env.cc_opcode ptr) (env.opcode ogf ocf))))
        (Keeps->> (Keeps-when_not (ltb len header || ltb 10 (len - header)) (ground arith)) (
          report-Keeps ocf (
            copy_at (replicate 10 0) 0 (take (len - header) (drop env.evt_cmd_complete_size ptr)))))
    where
      Keeps-when_not : (b : Bool) → b ≡ false → Keeps (when b undefined)
      Keeps-when_not true e = absurd (true≢false e)
      Keeps-when_not false e = Keeps-skip

  -- A write of more bytes than `rparam` has.
  abbrev pub IsFault : Outcome (Unit {0}) → Type 0
  IsFault (fault w) = Unit
  IsFault (done a w) = ⊥
  IsFault (exited code w) = ⊥
  IsFault (blocked w) = ⊥

  command_complete-IsFault :
      (ogf ocf len : ℕ) (ptr : List ℕ) (w : World)
      → (len < header) ⊎ (header + 10 < len)
      → IsFault (command_complete env ogf ocf len ptr w)
  unfolding command_complete
  command_complete-IsFault ogf ocf len ptr w h = ground arith

  Leaves-if :
      (rest : List ReadResult) (b : Bool) (m k : M (Unit {0})) (w : World)
      → Leaves rest (m w)
      → Leaves rest (k w)
      → Leaves rest ((if b then m else k) w)
  Leaves-if rest true m k w p q = p
  Leaves-if rest false m k w p q = q

  handle_event-Leaves :
      (ogf ocf : ℕ) (bytes : List ℕ) (w : World)
      → length bytes ≤ env.hci_max_event_size
      → header ≤ length bytes
      → length bytes ≤ header + 10
      → Leaves w.reads (handle_event env ogf ocf bytes w)
  unfolding handle_event
  handle_event-Leaves ogf ocf bytes w fits low high =
      let buf = received env.hci_max_event_size bytes in
      let evt = env.hdr_evt (drop 1 buf) in
      let all : length (take env.hci_max_event_size bytes) ≡ length bytes =
        ap length (take_all env.hci_max_event_size bytes fits) in
      Leaves-if w.reads (evt == env.evt_cmd_complete)
        (command_complete env ogf ocf (length (take env.hci_max_event_size bytes))
          (drop (1 + env.hci_event_hdr_size) buf))
        (say (unknown_event evt)) w
        ((command_complete-Keeps ogf ocf (length (take env.hci_max_event_size bytes))
            (drop (1 + env.hci_event_hdr_size) buf) (omega arith) (omega arith)).leaves
          w)
        refl

  handle_event-IsFault :
      (ogf ocf : ℕ) (bytes : List ℕ) (w : World)
      → length bytes ≤ env.hci_max_event_size
      → env.hdr_evt (drop 1 (received env.hci_max_event_size bytes)) ≡ env.evt_cmd_complete
      → (length bytes < header) ⊎ (header + 10 < length bytes)
      → IsFault (handle_event env ogf ocf bytes w)
  unfolding handle_event
  handle_event-IsFault ogf ocf bytes w fits complete bad =
      let buf = received env.hci_max_event_size bytes in
      let all : length (take env.hci_max_event_size bytes) ≡ length bytes =
        ap length (take_all env.hci_max_event_size bytes fits) in
      chosen (env.hdr_evt (drop 1 buf) == env.evt_cmd_complete)
        (command_complete env ogf ocf (length (take env.hci_max_event_size bytes))
          (drop (1 + env.hci_event_hdr_size) buf))
        (say (unknown_event (env.hdr_evt (drop 1 buf))))
        ((==_iff (env.hdr_evt (drop 1 buf)) env.evt_cmd_complete).1 complete)
        (command_complete-IsFault ogf ocf (length (take env.hci_max_event_size bytes))
          (drop (1 + env.hci_event_hdr_size) buf) w (grind arith))
    where
      chosen :
          (b : Bool) (m k : M (Unit {0}))
          → b ≡ true
          → IsFault (m w)
          → IsFault ((if b then m else k) w)
      chosen true m k e h = h
      chosen false m k e h = absurd (true≢false (sym e))

  -- The command is recorded, the interrupted reads are skipped, and the event is handled.
  sent_event :
      (dd ogf ocf : ℕ) (cmd_data : List ℕ) (rs : List ReadResult) (bytes : List ℕ)
      (rest : List ReadResult) (w : World)
      → env.hci_send_cmd w.out (hci_command dd ogf ocf cmd_data) ≡ true
      → w.reads ≡ rs ++ (bytes_read bytes ∷ rest)
      → Interrupted rs
      → send_cmd env dd ogf ocf cmd_data w
        ≡ handle_event env ogf ocf bytes
            (record w { out = w.out ++ (hci_command dd ogf ocf cmd_data ∷ []); reads = rest })
  unfolding send_cmd after_wait
  sent_event dd ogf ocf cmd_data rs bytes rest w accepted reads retried =
      let event_read : wait_event w.reads ≡ event bytes rest =
        ap wait_event reads
        ∙ wait_event-append rs (bytes_read bytes ∷ rest) retried
        ∙ (unfold wait_event in refl) in
      let w' : World = record w { out = w.out ++ (hci_command dd ogf ocf cmd_data ∷ []) } in
      ap (λ b. if b then after_wait env ogf ocf (wait_event w.reads) w' else exited exit_failure w)
        accepted
      ∙ ap (λ x. after_wait env ogf ocf x w') event_read

  -- A command that the socket accepts returns, and has read just up to its event, if the reads
  -- are any number of interrupted ones and then an event that fits the receive buffer and has
  -- from none to ten bytes behind the headers of an event and of a completed command.
  pub send_cmd-Leaves :
      (dd ogf ocf : ℕ) (cmd_data : List ℕ) (rs : List ReadResult) (bytes : List ℕ)
      (rest : List ReadResult) (w : World)
      → env.hci_send_cmd w.out (hci_command dd ogf ocf cmd_data) ≡ true
      → w.reads ≡ rs ++ (bytes_read bytes ∷ rest)
      → Interrupted rs
      → length bytes ≤ env.hci_max_event_size
      → 1 + env.hci_event_hdr_size + env.evt_cmd_complete_size ≤ length bytes
      → length bytes ≤ 1 + env.hci_event_hdr_size + env.evt_cmd_complete_size + 10
      → Leaves rest (send_cmd env dd ogf ocf cmd_data w)
  send_cmd-Leaves dd ogf ocf cmd_data rs bytes rest w accepted reads retried fits low high =
      let command = hci_command dd ogf ocf cmd_data in
      let w' : World = record w { out = w.out ++ (command ∷ []) } in
      subst (Leaves rest)
        (sym (sent_event dd ogf ocf cmd_data rs bytes rest w accepted reads retried))
        (handle_event-Leaves ogf ocf bytes (record w' { reads = rest }) fits low high)

  -- A completed command whose event has more than ten bytes behind the headers, or ends within
  -- them, makes `send_cmd` copy outside of the ten bytes of `rparam`.
  pub send_cmd-IsFault :
      (dd ogf ocf : ℕ) (cmd_data : List ℕ) (rs : List ReadResult) (bytes : List ℕ)
      (rest : List ReadResult) (w : World)
      → env.hci_send_cmd w.out (hci_command dd ogf ocf cmd_data) ≡ true
      → w.reads ≡ rs ++ (bytes_read bytes ∷ rest)
      → Interrupted rs
      → length bytes ≤ env.hci_max_event_size
      → env.hdr_evt (drop 1 (received env.hci_max_event_size bytes)) ≡ env.evt_cmd_complete
      → (length bytes < 1 + env.hci_event_hdr_size + env.evt_cmd_complete_size)
        ⊎ (1 + env.hci_event_hdr_size + env.evt_cmd_complete_size + 10 < length bytes)
      → IsFault (send_cmd env dd ogf ocf cmd_data w)
  send_cmd-IsFault dd ogf ocf cmd_data rs bytes rest w accepted reads retried fits complete bad =
      let command = hci_command dd ogf ocf cmd_data in
      let w' : World = record w { out = w.out ++ (command ∷ []) } in
      subst IsFault (sym (sent_event dd ogf ocf cmd_data rs bytes rest w accepted reads retried))
        (handle_event-IsFault ogf ocf bytes (record w' { reads = rest }) fits complete bad)
