-- ===== src/Transmit/Props/OverWifi.antt =====
-- That the program sends its messages and exits over Wi-Fi while hostapd answers the pings.
use transmitter_linux.Common.{
  ℕ, ◌≡◌, refl, Bool, true, false, ◌||◌, List, [], ◌∷◌, ◌++◌, codes, replicate, arith,
}
use transmitter_linux.Machine.{M, ◌>>=◌, pure, say, encode_failed, Env, Part}
use transmitter_linux.Utils.{Config, Counters, increment}
use transmitter_linux.Odid.{Odid, UasData}
use transmitter_linux.Bluetooth.Buffers.{message_size}
use transmitter_linux.Hostapd.Table.{Handler}
use transmitter_linux.Hostapd.Commands.{words}
use transmitter_linux.Beacon.{c_string, message_data}
use transmitter_linux.Beacon.Answering.Progress.{
  own, Serving, Serving->>=, Serving->>, Serving-pure, Serving-emit, Serving-sleep, Serving-on,
  Serving-off,
}
use transmitter_linux.Beacon.Answering.Messages.{send_beacon_message-Serving}
use transmitter_linux.Transmit.Send.{encode, send_message, send_single_messages}

-- Wi-Fi beacons and nothing else.
pub record OnlyWifi (config : Config) : Type 0 where
  pub beacon : config.use_beacon ≡ true
  pub btl : config.use_btl ≡ false
  pub bt4 : config.use_bt4 ≡ false
  pub bt5 : config.use_bt5 ≡ false

-- The requests for one text of `vendor_elements`.
abbrev pub announce : List ℕ → List (List ℕ)
announce value = words (codes "SET vendor_elements") value ∷ codes "UPDATE_BEACON" ∷ []

abbrev pub announce_message : List ℕ → ℕ → List (List ℕ)
announce_message encoded counter = announce (c_string (message_data encoded counter))

pub encode-Serving :
    (part : Part) (answer : Bool × List ℕ) → Serving [] answer.1 (encode part answer)
unfolding encode own
encode-Serving part (true, encoded) = Serving-pure encoded
encode-Serving part (false, encoded) =
    Serving->> [] [] encoded (say (encode_failed part)) (pure encoded) (Serving-emit _ refl)
      (Serving-pure encoded)

module _ (env : Env) (other : Handler → List (List ℕ) → M Bool) where
  send_message-Serving :
      (encoded : List ℕ) (config : Config) (counter : ℕ)
      → OnlyWifi config
      → Serving
          (announce_message encoded counter)
          tt
          (send_message env other encoded config counter)
  unfolding send_message
  send_message-Serving encoded config counter only =
      Serving->> [] (announce_message encoded counter) tt _ _
        (Serving-off config.use_btl _ only.btl)
        (Serving->> [] (announce_message encoded counter) tt _ _
          (Serving-off (config.use_bt4 || config.use_bt5) _ (ground (arith, only.bt4, only.bt5)))
          (Serving->> (announce_message encoded counter) [] tt _ _
            (Serving-on config.use_beacon _ _ only.beacon
              (send_beacon_message-Serving env other encoded counter))
            (Serving-sleep 100000)))

  -- One encoded message, sent, and what follows.
  message-Serving :
      {B : Type 0} (rest : List (List ℕ)) (y : B) (part : Part) (answer : Bool × List ℕ)
      (config : Config) (counter : ℕ) (k : List ℕ → M B)
      → OnlyWifi config
      → Serving rest y (k answer.1)
      → Serving (announce_message answer.1 counter ++ rest) y (
          encode part answer >>= λ encoded.
          send_message env other encoded config counter >>= λ _. k encoded)
  message-Serving rest y part answer config counter k only next =
      Serving->>= [] (announce_message answer.1 counter ++ rest) answer.1 y (encode part answer) _
        (encode-Serving part answer)
        (Serving->> (announce_message answer.1 counter) rest y _ _
          (send_message-Serving answer.1 config counter only) next)

  module _ {F : Type 0} (odid : Odid F) where
    open odid use {
      encode_basic_id, encode_location, encode_auth, encode_self_id, encode_system,
      encode_operator_id, encode_message_pack, pack_size,
    }

    -- The nine messages of the data, each with the counter of its type.
    abbrev pub single_requests : UasData F → Counters → List (List ℕ)
    single_requests u c =
        let m0 = (encode_basic_id u.basic_id_zero (replicate message_size 0)).1 in
        let m1 = (encode_basic_id u.basic_id_one m0).1 in
        let m2 = (encode_location u.location m1).1 in
        let m3 = (encode_auth u.auth_0 m2).1 in
        let m4 = (encode_auth u.auth_1 m3).1 in
        let m5 = (encode_auth u.auth_2 m4).1 in
        let m6 = (encode_self_id u.self_id m5).1 in
        let m7 = (encode_system u.system m6).1 in
        let m8 = (encode_operator_id u.operator_id m7).1 in
        announce_message m0 c.basic_id
        ++ (announce_message m1 (increment c.basic_id)
            ++ (announce_message m2 c.location
                ++ (announce_message m3 c.auth
                    ++ (announce_message m4 (increment c.auth)
                        ++ (announce_message m5 (increment (increment c.auth))
                            ++ (announce_message m6 c.self_id
                                ++ (announce_message m7 c.system
                                    ++ (announce_message m8 c.operator_id ++ []))))))))

    abbrev pub advanced : Config → Config
    advanced config =
        let c = config.msg_counters in
        record config {
          msg_counters = record c {
            basic_id = increment (increment c.basic_id);
            location = increment c.location;
            auth = increment (increment (increment c.auth));
            self_id = increment c.self_id;
            system = increment c.system;
            operator_id = increment c.operator_id;
          };
        }

    only_counted :
        (config : Config) (c : Counters)
        → OnlyWifi config
        → OnlyWifi (record config { msg_counters = c })
    only_counted config c only = record {
      beacon = only.beacon;
      btl = only.btl;
      bt4 = only.bt4;
      bt5 = only.bt5;
    }

    pub send_single_messages-Serving :
        (u : UasData F) (config : Config)
        → OnlyWifi config
        → Serving
            (single_requests u config.msg_counters)
            (advanced config)
            (send_single_messages env other odid u config)
    unfolding send_single_messages
    send_single_messages-Serving u config only = message-Serving _ _ _ _ _ _ _ only (
        message-Serving _ _ _ _ _ _ _ (only_counted config _ only) (
          message-Serving _ _ _ _ _ _ _ (only_counted config _ only) (
            message-Serving _ _ _ _ _ _ _ (only_counted config _ only) (
              message-Serving _ _ _ _ _ _ _ (only_counted config _ only) (
                message-Serving _ _ _ _ _ _ _ (only_counted config _ only) (
                  message-Serving _ _ _ _ _ _ _ (only_counted config _ only) (
                    message-Serving _ _ _ _ _ _ _ (only_counted config _ only) (
                      message-Serving _ _ _ _ _ _ _ (only_counted config _ only)
                        (Serving-pure (advanced config))))))))))
