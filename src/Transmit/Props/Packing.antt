-- ===== src/Transmit/Props/Packing.antt =====
-- What `create_message_pack` hands to the pack encoder.
use transmitter_linux.Common.{ℕ, ◌≡◌, Bool, true, List, [], ◌∷◌, replicate, arith}
use transmitter_linux.Machine.{World, done, Env, M}
use transmitter_linux.Odid.{Odid, UasData, PackData}
use transmitter_linux.Bluetooth.Buffers.{message_size}
use transmitter_linux.Hostapd.Table.{Handler}
use transmitter_linux.Transmit.Send.{create_message_pack, encode}

module _ {F : Type 0} (odid : Odid F) (u : UasData F) where
  open odid use {
    encode_basic_id, encode_location, encode_auth, encode_self_id, encode_system,
    encode_operator_id, encode_message_pack,
  }

  -- No encoder reports a failure, whatever the buffer holds.
  abbrev pub AllEncode : Type 0
  AllEncode =
      ((b : List ℕ) → (encode_basic_id u.basic_id_zero b).0 ≡ true)
      × ((b : List ℕ) → (encode_basic_id u.basic_id_one b).0 ≡ true)
      × ((b : List ℕ) → (encode_location u.location b).0 ≡ true)
      × ((b : List ℕ) → (encode_auth u.auth_0 b).0 ≡ true)
      × ((b : List ℕ) → (encode_auth u.auth_1 b).0 ≡ true)
      × ((b : List ℕ) → (encode_auth u.auth_2 b).0 ≡ true)
      × ((b : List ℕ) → (encode_self_id u.self_id b).0 ≡ true)
      × ((b : List ℕ) → (encode_system u.system b).0 ≡ true)
      × ((b : List ℕ) → (encode_operator_id u.operator_id b).0 ≡ true)
      × ((p : PackData) (b : List ℕ) → (encode_message_pack p b).0 ≡ true)

  -- The messages of a pack in their order, each encoded over the one before.
  abbrev pub pack_messages : List (List ℕ)
  pack_messages =
      let m0 : List ℕ = (encode_basic_id u.basic_id_zero (replicate message_size 0)).1 in
      let m1 : List ℕ = (encode_basic_id u.basic_id_one m0).1 in
      let m2 : List ℕ = (encode_location u.location m1).1 in
      let m3 : List ℕ = (encode_auth u.auth_0 m2).1 in
      let m4 : List ℕ = (encode_auth u.auth_1 m3).1 in
      let m5 : List ℕ = (encode_auth u.auth_2 m4).1 in
      let m6 : List ℕ = (encode_self_id u.self_id m5).1 in
      let m7 : List ℕ = (encode_system u.system m6).1 in
      let m8 : List ℕ = (encode_operator_id u.operator_id m7).1 in
      m0 ∷ m1 ∷ m2 ∷ m3 ∷ m4 ∷ m5 ∷ m6 ∷ m7 ∷ m8 ∷ []

  module _ (env : Env) (other : Handler → List (List ℕ) → M Bool) where
    -- When every encoder succeeds, `create_message_pack` has no effect but to fill its buffer:
    -- with the pack of nine messages of the size of a message, which are the two basic IDs, the
    -- location, the three pages of authentication, the self ID, the system and the operator ID.
    pub create_message_pack_lem :
        (pack_enc : List ℕ) (w : World)
        → AllEncode
        → create_message_pack env other odid u pack_enc w
          ≡ done
              (encode_message_pack
                (record {
                  single_message_size = message_size;
                  msg_pack_size = 9;
                  messages = pack_messages;
                })
                pack_enc).1
              w
    unfolding create_message_pack encode
    create_message_pack_lem pack_enc w all = grind arith
