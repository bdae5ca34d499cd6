-- ===== src/Beacon/Answering/Messages.antt =====
-- The functions of wifi_beacon.c while hostapd answers the pings.
use mathlib.Core.List.{append_assoc}
use transmitter_linux.Common.{
  ℕ, zero, suc, ◌+◌, ◌-◌, ◌%◌, ◌*◌, ◌≤◌, ◌<◌, ◌≡◌, refl, ◌∙◌, ap, Bool, true, false, List, [], ◌∷◌,
  ◌++◌, some, codes, length, take, length-set, set, length-replicate, ltb, if◌then◌else◌, arith,
}
use transmitter_linux.Machine.{
  World, done, M, ◌>>=◌, say, skip, Note, Reply, Outcome, reply_text, command_timed_out,
  command_failed, replied, timed_out, request_failed, ctrl_request, printed, result_of, >>=-done,
  Env,
}
use transmitter_linux.Utils.{uchar_to_ascii, write_hex}
use transmitter_linux.Bluetooth.Buffers.{message_size}
use transmitter_linux.Hostapd.Table.{Handler}
use transmitter_linux.Hostapd.Control.{sem_post, after_request, wpa_ctrl_command}
use transmitter_linux.Hostapd.Commands.{
  same_text, words, snprintf_error, send_set, hostapd_cli_cmd_set, hostapd_cli_cmd_update_beacon,
  wpa_request,
}
use transmitter_linux.Beacon.Defs.{
  c_string, message_data, pack_data, header_data, wifi_beacon_header_size, request_and_wait, sleep,
  send_update_beacon, send_beacon_message, send_beacon_message_pack,
}
use transmitter_linux.Beacon.Served.{wpa_request-update_beacon, wpa_request-set}
use transmitter_linux.Beacon.Answering.Progress.{
  own, Alive, Progress, Serving-done, Serving, Serving->>, Serving-sleep,
}
use transmitter_linux.Beacon.Answering.Rounds.{Posts, request_and_wait-Serving}

-- How hostapd's answer to a command ends the call.
record Answer (cmd : List ℕ) (w : World) (o : Outcome Bool) : Type 0 where
  result : Bool
  note : Note
  ends :
      o
      ≡ done result (record w {
        out = (w.out ++ (ctrl_request cmd ∷ [])) ++ (printed note ∷ []);
        semaphore = w.semaphore + 1;
      })

Answer-if :
    {cmd : List ℕ} {w : World} (b : Bool) {o : Outcome Bool} (p : Outcome Bool)
    → b ≡ true
    → Answer cmd w o
    → Answer cmd w (if b then o else p)
Answer-if true p e a = a
Answer-if false p e a = absurd (ground (arith, e))

wpa_ctrl_command-Answer :
    (env : Env) (cmd : List ℕ) (w : World)
    → w.connected ≡ true
    → Answer cmd w (wpa_ctrl_command env true cmd w)
unfolding wpa_ctrl_command sem_post after_request
wpa_ctrl_command-Answer env cmd w on =
    Answer-if w.connected _ on (answer (env.wpa_ctrl_request w.out cmd))
  where
    answer :
        (r : Reply)
        → Answer cmd w (
            after_request env true r
              (sem_post (record w { out = w.out ++ (ctrl_request cmd ∷ []) })))
    answer (replied text) = record { result = true; note = reply_text text; ends = refl }
    answer timed_out = record { result = false; note = command_timed_out; ends = refl }
    answer request_failed = record { result = false; note = command_failed; ends = refl }

-- How long the texts are.
length-write_hex : (mem : List ℕ) (at : ℕ) (bs : List ℕ) → length (write_hex mem at bs) ≡ length mem
unfolding write_hex uchar_to_ascii
length-write_hex mem at [] = refl
length-write_hex mem at (b ∷ bs) =
    length-write_hex (uchar_to_ascii (some at) b mem) (at + 2) bs
    ∙ length-set (set mem at _) (suc at) _
    ∙ length-set mem at _

length-c_string : (s : List ℕ) → length (c_string s) ≤ length s
unfolding c_string
length-c_string [] = omega arith
length-c_string (zero ∷ s) = omega arith
length-c_string (suc c ∷ s) = omega (arith, length-c_string s)

module _ (env : Env) (other : Handler → List (List ℕ) → M Bool) where
  -- A line, the command, and what its answer prints.
  announced-Posts :
      (first : Note) (cmd : List ℕ)
      → same_text cmd (codes "PING") ≡ false
      → Posts ((say first >>= λ _. wpa_ctrl_command env true cmd) >>= λ _. skip) (cmd ∷ [])
  unfolding own same_text
  announced-Posts first cmd other_cmd = record {
    posts = λ w on.
        let v = record w { out = w.out ++ (printed first ∷ []) } in
        let a = wpa_ctrl_command-Answer env cmd v on in
        (
          printed first ∷ ctrl_request cmd ∷ printed a.note ∷ [],
          >>=-done (say first >>= λ _. wpa_ctrl_command env true cmd) (λ _. skip) a.ends
              ∙ ap (λ o. done tt (record w { out = o; semaphore = w.semaphore + 1 }))
                  (append_assoc (w.out ++ (printed first ∷ [])) (ctrl_request cmd ∷ [])
                      (printed a.note ∷ [])
                    ∙ append_assoc w.out (printed first ∷ [])
                        (ctrl_request cmd ∷ printed a.note ∷ [])),
          rw other_cmd refl,
        );
  }

  update_beacon-Posts :
      Posts (wpa_request env other (codes "update_beacon" ∷ [])) (codes "UPDATE_BEACON" ∷ [])
  unfolding hostapd_cli_cmd_update_beacon same_text
  update_beacon-Posts = record {
    posts = λ w on. rw (wpa_request-update_beacon env other [] w) (
        (announced-Posts (result_of (codes "update_beacon")) (codes "UPDATE_BEACON") refl).posts w
          on);
  }

  set-Posts :
      (value : List ℕ)
      → length value < 2000
      → Posts
          (wpa_request env other (codes "set" ∷ codes "vendor_elements" ∷ value ∷ []))
          (words (codes "SET vendor_elements") value ∷ [])
  unfolding hostapd_cli_cmd_set send_set same_text
  set-Posts value short = record {
    posts = λ w on.
        let cmd = words (codes "SET vendor_elements") value in
        let fits : snprintf_error 2048 cmd ≡ false = ground arith in
        rw (wpa_request-set env other (codes "vendor_elements" ∷ value ∷ []) w, fits)
          ((announced-Posts (result_of cmd) cmd refl).posts w on);
  }

  message_data_short :
      (encoded : List ℕ) (counter : ℕ) → length (c_string (message_data encoded counter)) < 2000
  unfolding message_data uchar_to_ascii
  message_data_short encoded counter =
      let data' = uchar_to_ascii (some 12) counter (header_data message_size) in
      omega (
        arith,
        length-c_string (message_data encoded counter),
        length-write_hex data' 14 (take message_size encoded),
      )

  pack_data_short :
      (most amount : ℕ) (pack : List ℕ) (counter : ℕ)
      → most ≤ 9
      → length (c_string (pack_data most amount pack counter)) < 2000
  unfolding pack_data uchar_to_ascii
  pack_data_short most amount pack counter small =
      let size = (wifi_beacon_header_size - 2 + 3 + amount * message_size) % 256 in
      let data' = uchar_to_ascii (some 2) size (header_data (3 + most * message_size)) in
      let data' = uchar_to_ascii (some 12) counter data' in
      let bytes = take (3 + amount * message_size) pack in
      omega (
        arith,
        length-c_string (pack_data most amount pack counter),
        length-write_hex data' 14 bytes,
        length-replicate {A = ℕ} (2 * (3 + most * 25) + 1) 0,
      )

  update_beacon-Serving : Serving (codes "UPDATE_BEACON" ∷ []) tt (send_update_beacon env other)
  unfolding send_update_beacon
  update_beacon-Serving =
      request_and_wait-Serving env other (codes "update_beacon" ∷ []) (codes "UPDATE_BEACON" ∷ [])
        update_beacon-Posts

  set-Serving :
      (value : List ℕ)
      → length value < 2000
      → Serving
          (words (codes "SET vendor_elements") value ∷ [])
          tt
          (request_and_wait env other (codes "set" ∷ codes "vendor_elements" ∷ value ∷ []))
  set-Serving value short =
      request_and_wait-Serving env other (codes "set" ∷ codes "vendor_elements" ∷ value ∷ []) _
        (set-Posts value short)

  sleep-Serving : (seconds : ℕ) → Serving [] tt (sleep env other seconds)
  unfolding sleep
  sleep-Serving seconds = Serving-sleep (seconds * 1000000)

  pub send_beacon_message-Serving :
      (encoded : List ℕ) (counter : ℕ)
      → Serving
          (words (codes "SET vendor_elements") (c_string (message_data encoded counter))
            ∷ codes "UPDATE_BEACON"
            ∷ [])
          tt
          (send_beacon_message env other encoded counter)
  unfolding send_beacon_message
  send_beacon_message-Serving encoded counter =
      let value = c_string (message_data encoded counter) in
      Serving->> (words (codes "SET vendor_elements") value ∷ []) (codes "UPDATE_BEACON" ∷ []) tt _
        _ (set-Serving value (message_data_short encoded counter))
        (Serving->> (codes "UPDATE_BEACON" ∷ []) [] tt _ _ update_beacon-Serving (sleep-Serving 1))

  pub send_beacon_message_pack-Serving :
      (amount : ℕ) (pack : List ℕ) (counter : ℕ)
      → amount ≤ env.pack_max_messages
      → env.pack_max_messages ≤ 9
      → Serving
          (words
              (codes "SET vendor_elements")
              (c_string (pack_data env.pack_max_messages amount pack counter))
            ∷ codes "UPDATE_BEACON"
            ∷ [])
          tt
          (send_beacon_message_pack env other amount pack counter)
  unfolding send_beacon_message_pack
  send_beacon_message_pack-Serving amount pack counter fits small =
      let value = c_string (pack_data env.pack_max_messages amount pack counter) in
      let no_more : ltb env.pack_max_messages amount ≡ false = ground (arith, fits) in
      rw no_more (
        Serving->> (words (codes "SET vendor_elements") value ∷ []) (codes "UPDATE_BEACON" ∷ []) tt
          _ _ (set-Serving value (pack_data_short env.pack_max_messages amount pack counter small))
          (Serving->> [] (codes "UPDATE_BEACON" ∷ []) tt _ _ (sleep-Serving 1) (
            Serving->> (codes "UPDATE_BEACON" ∷ []) [] tt _ _ update_beacon-Serving
              (sleep-Serving 1))))

  -- From a world in which the connection to hostapd stands, the event loop goes on and hostapd
  -- will answer every ping: `send_beacon_message` returns, whatever hostapd answers to its
  -- commands and whenever the other thread runs. Its own requests are just the `SET` of
  -- `vendor_elements` to the text of the message and then `UPDATE_BEACON`, no post of the
  -- semaphore is lost, and the world that it leaves is again such a world.
  pub send_beacon_message-Progress :
      (encoded : List ℕ) (counter : ℕ) (w : World)
      → Alive w
      → (v : World) × (send_beacon_message env other encoded counter w ≡ done tt v)
        × Progress
            (words (codes "SET vendor_elements") (c_string (message_data encoded counter))
              ∷ codes "UPDATE_BEACON"
              ∷ [])
            w
            v
  send_beacon_message-Progress encoded counter w alive =
      Serving-done (send_beacon_message env other encoded counter w)
        ((send_beacon_message-Serving encoded counter).serves w alive)
