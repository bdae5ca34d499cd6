-- ===== src/Transmit/Props/Counting.antt =====
-- How a call of the sending functions leaves the message counters.
use transmitter_linux.Common.{
  ℕ, zero, suc, ◌+◌, ◌*◌, ◌%◌, ◌<◌, ◌≡◌, ◌∙◌, Bool, List, [], ◌∷◌, ◌++◌, replicate, if◌then◌else◌,
  arith,
}
use transmitter_linux.Machine.{
  World, M, ◌>>=◌, ◌>>◌, Env, Returns, Returns->>=, Returns-bind, Returns-mono, emit, slept_us,
}
use transmitter_linux.Utils.{Config, Counters}
use transmitter_linux.Odid.{Odid, UasData}
use transmitter_linux.Hostapd.Table.{Handler}
use transmitter_linux.Transmit.Send.{
  send_single_messages, create_message_pack, send_pack_rounds, send_packs, send_pack_beacon,
  send_pack_bt5, count_packed,
}

-- The counters after the nine messages: every one is a `uint8_t`.
abbrev pub after_singles : Counters → Counters
after_singles c = record c {
  basic_id = (c.basic_id + 2) % 256;
  location = (c.location + 1) % 256;
  auth = (c.auth + 3) % 256;
  self_id = (c.self_id + 1) % 256;
  system = (c.system + 1) % 256;
  operator_id = (c.operator_id + 1) % 256;
}

module _ (env : Env) (other : Handler → List (List ℕ) → M Bool) {F : Type 0} (odid : Odid F) where
  -- Whatever the encoders, the controller and hostapd do: if `send_single_messages` returns, the
  -- counter of each message type has advanced by the number of its messages, modulo 256, and
  -- nothing else of the configuration has changed.
  pub send_single_messages-counters :
      (u : UasData F) (config : Config) (w : World)
      → Returns
          (λ c. c ≡ record config { msg_counters = after_singles config.msg_counters })
          (send_single_messages env other odid u config w)
  unfolding send_single_messages
  send_single_messages-counters u config w = ground arith

  -- What one round adds to the counter of packs.
  abbrev pub per_round : Config → ℕ
  per_round c = (if c.use_beacon then 1 else 0) + (if c.use_bt5 then 1 else 0)

  abbrev pub after_packs : ℕ → Config → Config
  after_packs n c = record c {
    msg_counters = record c.msg_counters {
      packed = (c.msg_counters.packed + n * per_round c) % 256;
    };
  }

  pub send_pack_beacon-counters :
      (pack : List ℕ) (config : Config) (w : World)
      → Returns
          (λ c. c ≡ (if config.use_beacon then count_packed config else config))
          (send_pack_beacon env other odid pack config w)
  unfolding send_pack_beacon
  send_pack_beacon-counters pack config w = ground arith

  pub send_pack_bt5-counters :
      (pack : List ℕ) (config : Config) (w : World)
      → Returns
          (λ c. c ≡ (if config.use_bt5 then count_packed config else config))
          (send_pack_bt5 env other odid pack config w)
  unfolding send_pack_bt5
  send_pack_bt5-counters pack config w = ground arith

  after_packs-suc :
      (n : ℕ) (config c d : Config)
      → c ≡ (if config.use_beacon then count_packed config else config)
      → d ≡ (if c.use_bt5 then count_packed c else c)
      → after_packs n d ≡ after_packs (suc n) config
  after_packs-suc n config c d e e' = ground arith

  send_pack_rounds-counters :
      (n : ℕ) (pack : List ℕ) (config : Config) (w : World)
      → config.msg_counters.packed < 256
      → Returns (λ c. c ≡ after_packs n config) (send_pack_rounds env other odid n pack config w)
  unfolding send_pack_rounds
  send_pack_rounds-counters zero pack config w h = ground arith
  send_pack_rounds-counters (suc n) pack config w h =
      Returns-bind (λ c. c ≡ after_packs (suc n) config)
        (λ c. c ≡ (if config.use_beacon then count_packed config else config))
        (send_pack_beacon env other odid pack config)
        (λ c. send_pack_bt5 env other odid pack c >>= after c) w
        (send_pack_beacon-counters pack config w)
        λ c w' e.
          Returns-bind (λ c. c ≡ after_packs (suc n) config)
            (λ d. d ≡ (if c.use_bt5 then count_packed c else c))
            (send_pack_bt5 env other odid pack c) (after c) w' (send_pack_bt5-counters pack c w')
            λ d w'' e'.
              Returns-mono (λ c. c ≡ after_packs (suc n) config) (λ c. c ≡ after_packs n d)
                (after c d w'') (λ a r. r ∙ after_packs-suc n config c d e e')
                (send_pack_rounds-counters n pack d
                  (record w'' { out = w''.out ++ (slept_us 4000000 ∷ []) }) (ground arith))
    where
      after : Config → Config → M Config
      after c d = emit (slept_us 4000000) >> send_pack_rounds env other odid n pack d

  -- Whatever hostapd and the controller do: if `send_packs` returns, ten rounds have advanced the
  -- counter of packs, modulo 256, by 10 for each of the transports that are in use, Wi-Fi beacons
  -- and Bluetooth 5, which share it; nothing else of the configuration has changed. The counter
  -- is a byte before.
  pub send_packs-counters :
      (u : UasData F) (config : Config) (w : World)
      → config.msg_counters.packed < 256
      → Returns
          (λ c. c ≡ record config {
            msg_counters = record config.msg_counters {
              packed =
                  (config.msg_counters.packed
                    + 10
                      * ((if config.use_beacon then 1 else 0) + (if config.use_bt5 then 1 else 0)))
                  % 256;
            };
          })
          (send_packs env other odid u config w)
  unfolding send_packs
  send_packs-counters u config w h =
      Returns->>= (λ c. c ≡ after_packs 10 config)
        (create_message_pack env other odid u (replicate (3 + env.pack_max_messages * 25) 0))
        (λ pack. send_pack_rounds env other odid 10 pack config)
        (λ pack w'. send_pack_rounds-counters 10 pack config w' h) w
