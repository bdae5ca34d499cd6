-- ===== src/Transmit/Send.antt =====
-- Sending the messages one by one, or as packs.
use transmitter_linux.Common.{
  ℕ, zero, suc, ◌+◌, ◌*◌, Bool, not, ◌||◌, List, [], ◌∷◌, if◌then◌else◌, replicate,
}
use transmitter_linux.Machine.{
  M, ◌>>=◌, ◌>>◌, pure, when, say, emit, Env, slept_us, Part, basic_id_part, location_part,
  auth_0_part, auth_1_part, auth_2_part, self_id_part, system_part, operator_id_part, pack_part,
  encode_failed,
}
use transmitter_linux.Utils.{Config, Counters, increment}
use transmitter_linux.Odid.{Odid, UasData, PackData}
use transmitter_linux.Bluetooth.Buffers.{message_size}
use transmitter_linux.Bluetooth.Api.{
  send_bluetooth_message, send_bluetooth_message_extended_api, send_bluetooth_message_pack,
}
use transmitter_linux.Hostapd.Table.{Handler}
use transmitter_linux.Beacon.{send_beacon_message, send_beacon_message_pack}

-- `config->msg_counters[…]++`
abbrev count : (Counters → Counters) → Config → Config
count f config = record config { msg_counters = f config.msg_counters }

abbrev pub count_basic_id : Config → Config
count_basic_id = count λ c. record c { basic_id = increment c.basic_id }

abbrev pub count_location : Config → Config
count_location = count λ c. record c { location = increment c.location }

abbrev pub count_auth : Config → Config
count_auth = count λ c. record c { auth = increment c.auth }

abbrev pub count_self_id : Config → Config
count_self_id = count λ c. record c { self_id = increment c.self_id }

abbrev pub count_system : Config → Config
count_system = count λ c. record c { system = increment c.system }

abbrev pub count_operator_id : Config → Config
count_operator_id = count λ c. record c { operator_id = increment c.operator_id }

abbrev pub count_packed : Config → Config
count_packed = count λ c. record c { packed = increment c.packed }

-- An encoder's call on the buffer `encoded`, and the line that says that it failed.
unfoldable pub encode : Part → Bool × List ℕ → M (List ℕ)
encode part (success, encoded) = do when (not success) (say (encode_failed part)); pure encoded

module _ (env : Env) (other : Handler → List (List ℕ) → M Bool) where
  unfoldable pub send_message : List ℕ → Config → ℕ → M (Unit {0})
  send_message encoded config msg_counter = do
    when config.use_btl (send_bluetooth_message env encoded msg_counter config)
    when (config.use_bt4 || config.use_bt5)
        (send_bluetooth_message_extended_api env encoded msg_counter config)
    when config.use_beacon (send_beacon_message env other encoded msg_counter)
    emit (slept_us 100000)

  module _ {F : Type 0} (odid : Odid F) where
    open odid use {
      encode_basic_id, encode_location, encode_auth, encode_self_id, encode_system,
      encode_operator_id, encode_message_pack, pack_size,
    }

    unfoldable pub send_single_messages : UasData F → Config → M Config
    send_single_messages u config = do
      let encoded : List ℕ = replicate message_size 0
      encoded ← encode basic_id_part (encode_basic_id u.basic_id_zero encoded)
      send_message encoded config config.msg_counters.basic_id
      let config = count_basic_id config
      encoded ← encode basic_id_part (encode_basic_id u.basic_id_one encoded)
      send_message encoded config config.msg_counters.basic_id
      let config = count_basic_id config
      encoded ← encode location_part (encode_location u.location encoded)
      send_message encoded config config.msg_counters.location
      let config = count_location config
      encoded ← encode auth_0_part (encode_auth u.auth_0 encoded)
      send_message encoded config config.msg_counters.auth
      let config = count_auth config
      encoded ← encode auth_1_part (encode_auth u.auth_1 encoded)
      send_message encoded config config.msg_counters.auth
      let config = count_auth config
      encoded ← encode auth_2_part (encode_auth u.auth_2 encoded)
      send_message encoded config config.msg_counters.auth
      let config = count_auth config
      encoded ← encode self_id_part (encode_self_id u.self_id encoded)
      send_message encoded config config.msg_counters.self_id
      let config = count_self_id config
      encoded ← encode system_part (encode_system u.system encoded)
      send_message encoded config config.msg_counters.system
      let config = count_system config
      encoded ← encode operator_id_part (encode_operator_id u.operator_id encoded)
      send_message encoded config config.msg_counters.operator_id
      pure (count_operator_id config)

    -- `pack_enc` is memory of `ODID_PACK_MAX_MESSAGES` messages behind a header of 3 bytes; the
    -- result is what it holds. `memcpy` takes the 25 bytes of `encoded`.
    unfoldable pub create_message_pack : UasData F → List ℕ → M (List ℕ)
    create_message_pack u pack_enc = do
      let encoded : List ℕ = replicate message_size 0
      m0 ← encode basic_id_part (encode_basic_id u.basic_id_zero encoded)
      m1 ← encode basic_id_part (encode_basic_id u.basic_id_one m0)
      m2 ← encode location_part (encode_location u.location m1)
      m3 ← encode auth_0_part (encode_auth u.auth_0 m2)
      m4 ← encode auth_1_part (encode_auth u.auth_1 m3)
      m5 ← encode auth_2_part (encode_auth u.auth_2 m4)
      m6 ← encode self_id_part (encode_self_id u.self_id m5)
      m7 ← encode system_part (encode_system u.system m6)
      m8 ← encode operator_id_part (encode_operator_id u.operator_id m7)
      let pack : PackData = record {
        single_message_size = message_size;
        msg_pack_size = 9;
        messages = m0 ∷ m1 ∷ m2 ∷ m3 ∷ m4 ∷ m5 ∷ m6 ∷ m7 ∷ m8 ∷ [];
      }
      encode pack_part (encode_message_pack pack pack_enc)

    -- The two sends of a round, each with the counter that it increments.
    unfoldable pub send_pack_beacon : List ℕ → Config → M Config
    send_pack_beacon pack_enc config =
        if config.use_beacon
        then (do
          send_beacon_message_pack env other (pack_size pack_enc) pack_enc
              config.msg_counters.packed
          pure (count_packed config))
        else pure config

    unfoldable pub send_pack_bt5 : List ℕ → Config → M Config
    send_pack_bt5 pack_enc config =
        if config.use_bt5
        then (do
          send_bluetooth_message_pack env (pack_size pack_enc) pack_enc config.msg_counters.packed
              config
          pure (count_packed config))
        else pure config

    unfoldable pub send_pack_rounds : ℕ → List ℕ → Config → M Config
    unfolding send_pack_beacon send_pack_bt5
    send_pack_rounds zero pack_enc config = pure config
    send_pack_rounds (suc n) pack_enc config = do
      config ← send_pack_beacon pack_enc config
      config ← send_pack_bt5 pack_enc config
      emit (slept_us 4000000)
      send_pack_rounds n pack_enc config

    unfoldable pub send_packs : UasData F → Config → M Config
    send_packs u config = do
      pack_enc ← create_message_pack u (replicate (3 + env.pack_max_messages * message_size) 0)
      send_pack_rounds 10 pack_enc config
