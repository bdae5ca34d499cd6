-- ===== src/Transmit/Props/WifiPacks.antt =====
-- Packs over Wi-Fi: what ten rounds of `send_packs` request.
use transmitter_linux.Common.{◌+◌, ◌*◌, ℕ, zero, suc, ◌≤◌, Bool, List, [], ◌∷◌, ◌++◌, replicate}
use transmitter_linux.Machine.{M, Env}
use transmitter_linux.Utils.{Config, increment}
use transmitter_linux.Odid.{Odid, UasData}
use transmitter_linux.Bluetooth.Buffers.{message_size}
use transmitter_linux.Hostapd.Table.{Handler}
use transmitter_linux.Beacon.{c_string, pack_data}
use transmitter_linux.Beacon.Answering.Progress.{
  Serving, Serving->>=, Serving->>, Serving-pure, Serving-sleep, Serving-then, Serving-else,
}
use transmitter_linux.Beacon.Answering.Messages.{send_beacon_message_pack-Serving}
use transmitter_linux.Transmit.Send.{
  create_message_pack, send_pack_beacon, send_pack_bt5, send_pack_rounds, send_packs, count_packed,
}
use transmitter_linux.Transmit.Props.OverWifi.{OnlyWifi, announce, encode-Serving}

-- The configuration after so many packs.
abbrev pub packs_counted : ℕ → Config → Config
packs_counted zero config = config
packs_counted (suc n) config = packs_counted n (count_packed config)

module _ (env : Env) (other : Handler → List (List ℕ) → M Bool) {F : Type 0} (odid : Odid F) where
  open odid use {
    encode_basic_id, encode_location, encode_auth, encode_self_id, encode_system,
    encode_operator_id, encode_message_pack, pack_size,
  }

  -- The memory of the pack: the nine messages in their order, encoded.
  abbrev pub encoded_pack : UasData F → List ℕ → List ℕ
  encoded_pack u memory =
      let m0 = (encode_basic_id u.basic_id_zero (replicate message_size 0)).1 in
      let m1 = (encode_basic_id u.basic_id_one m0).1 in
      let m2 = (encode_location u.location m1).1 in
      let m3 = (encode_auth u.auth_0 m2).1 in
      let m4 = (encode_auth u.auth_1 m3).1 in
      let m5 = (encode_auth u.auth_2 m4).1 in
      let m6 = (encode_self_id u.self_id m5).1 in
      let m7 = (encode_system u.system m6).1 in
      let m8 = (encode_operator_id u.operator_id m7).1 in
      (encode_message_pack
        (record {
          single_message_size = message_size;
          msg_pack_size = 9;
          messages = m0 ∷ m1 ∷ m2 ∷ m3 ∷ m4 ∷ m5 ∷ m6 ∷ m7 ∷ m8 ∷ [];
        })
        memory).1

  create_message_pack-Serving :
      (u : UasData F) (memory : List ℕ)
      → Serving [] (encoded_pack u memory) (create_message_pack env other odid u memory)
  unfolding create_message_pack
  create_message_pack-Serving u memory = Serving->>= [] [] _ _ _ _ (encode-Serving _ _) (
      Serving->>= [] [] _ _ _ _ (encode-Serving _ _) (
        Serving->>= [] [] _ _ _ _ (encode-Serving _ _) (
          Serving->>= [] [] _ _ _ _ (encode-Serving _ _) (
            Serving->>= [] [] _ _ _ _ (encode-Serving _ _) (
              Serving->>= [] [] _ _ _ _ (encode-Serving _ _) (
                Serving->>= [] [] _ _ _ _ (encode-Serving _ _) (
                  Serving->>= [] [] _ _ _ _ (encode-Serving _ _)
                    (Serving->>= [] [] _ _ _ _ (encode-Serving _ _) (encode-Serving _ _)))))))))

  -- The same pack so many times, with a counter that goes up.
  abbrev pub pack_requests : ℕ → List ℕ → ℕ → List (List ℕ)
  pack_requests zero pack counter = []
  pack_requests (suc n) pack counter =
      announce (c_string (pack_data env.pack_max_messages (pack_size pack) pack counter))
      ++ pack_requests n pack (increment counter)

  only_packed : (config : Config) → OnlyWifi config → OnlyWifi (count_packed config)
  only_packed config only = record {
    beacon = only.beacon;
    btl = only.btl;
    bt4 = only.bt4;
    bt5 = only.bt5;
  }

  send_pack_beacon-Serving :
      (pack : List ℕ) (config : Config)
      → OnlyWifi config
      → pack_size pack ≤ env.pack_max_messages
      → env.pack_max_messages ≤ 9
      → Serving
          (announce (
            c_string
              (pack_data env.pack_max_messages (pack_size pack) pack config.msg_counters.packed)))
          (count_packed config)
          (send_pack_beacon env other odid pack config)
  unfolding send_pack_beacon
  send_pack_beacon-Serving pack config only fits small =
      Serving-then config.use_beacon _ (count_packed config) _ _ only.beacon (
        Serving->> _ [] (count_packed config) _ _
          (send_beacon_message_pack-Serving env other (pack_size pack) pack
            config.msg_counters.packed fits small)
          (Serving-pure (count_packed config)))

  send_pack_bt5-Serving :
      (pack : List ℕ) (config : Config)
      → OnlyWifi config
      → Serving [] config (send_pack_bt5 env other odid pack config)
  unfolding send_pack_bt5
  send_pack_bt5-Serving pack config only =
      Serving-else config.use_bt5 [] config _ _ only.bt5 (Serving-pure config)

  send_pack_rounds-Serving :
      (n : ℕ) (pack : List ℕ) (config : Config)
      → OnlyWifi config
      → pack_size pack ≤ env.pack_max_messages
      → env.pack_max_messages ≤ 9
      → Serving
          (pack_requests n pack config.msg_counters.packed)
          (packs_counted n config)
          (send_pack_rounds env other odid n pack config)
  unfolding send_pack_rounds
  send_pack_rounds-Serving zero pack config only fits small = Serving-pure config
  send_pack_rounds-Serving (suc n) pack config only fits small =
      Serving->>= _ (pack_requests n pack (increment config.msg_counters.packed))
        (count_packed config) _ _ _ (send_pack_beacon-Serving pack config only fits small)
        (Serving->>= [] (pack_requests n pack (increment config.msg_counters.packed))
          (count_packed config) _ _ _
          (send_pack_bt5-Serving pack (count_packed config) (only_packed config only))
          (Serving->> [] _ _ _ _ (Serving-sleep 4000000) (
            send_pack_rounds-Serving n pack (count_packed config) (only_packed config only) fits
              small)))

  abbrev empty_pack : List ℕ
  empty_pack = replicate (3 + env.pack_max_messages * message_size) 0

  -- A pack that fits its memory.
  abbrev pub PackFits : UasData F → Type 0
  PackFits u =
      (pack_size (encoded_pack u empty_pack) ≤ env.pack_max_messages) × (env.pack_max_messages ≤ 9)

  -- What `send_packs` requests.
  abbrev pub packed_requests : UasData F → Config → List (List ℕ)
  packed_requests u config = pack_requests 10 (encoded_pack u empty_pack) config.msg_counters.packed

  pub send_packs-Serving :
      (u : UasData F) (config : Config)
      → OnlyWifi config
      → PackFits u
      → Serving
          (packed_requests u config)
          (packs_counted 10 config)
          (send_packs env other odid u config)
  unfolding send_packs
  send_packs-Serving u config only fits =
      Serving->>= [] _ (encoded_pack u empty_pack) _ _ _ (create_message_pack-Serving u empty_pack)
        (send_pack_rounds-Serving 10 (encoded_pack u empty_pack) config only fits.0 fits.1)
