-- ===== src/Transmit/Props/PackRounds.antt =====
-- That packs are sent over Bluetooth 5 in ten rounds when the controller answers.
use mathlib.Core.Path.{subst}
use transmitter_linux.Common.{
  ℕ, zero, suc, ◌+◌, ◌*◌, ◌≡◌, sym, ◌∙◌, ap, Bool, true, false, List, replicate, if◌then◌else◌, ltb,
  arith,
}
use transmitter_linux.Machine.{
  World, Returns, Returns-mono, ReadResult, Outcome, done, exited, blocked, fault, M, ◌>>=◌, pure,
  when, emit, slept_us, Env, >>=-done,
}
use transmitter_linux.Utils.{Config}
use transmitter_linux.Odid.{Odid, UasData}
use transmitter_linux.Bluetooth.Buffers.{message_size, extended_advertising_data_pack_buf}
use transmitter_linux.Beacon.{send_beacon_message_pack}
use transmitter_linux.Bluetooth.{send_cmd, hci_le_set_extended_advertising_data_pack}
use transmitter_linux.Bluetooth.Api.{send_bluetooth_message_pack}
use transmitter_linux.Bluetooth.Keeping.{Leaves}
use transmitter_linux.Bluetooth.Takes.{Answered, Answered-split, Takes, Takes->>, Takes-pure}
use transmitter_linux.Bluetooth.Answers.{Accepts, send_cmd-Takes, guarded-Takes}
use transmitter_linux.Hostapd.Table.{Handler}
use transmitter_linux.Transmit.Send.{
  create_message_pack, send_pack_beacon, send_pack_bt5, send_pack_rounds, send_packs, count_packed,
}
use transmitter_linux.Transmit.Props.Counting.{send_pack_beacon-counters, send_pack_bt5-counters}
use transmitter_linux.Transmit.Props.Packing.{AllEncode, pack_messages, create_message_pack_lem}
use transmitter_linux.Transmit.Props.Returning.{times, Takes-first, choose-else}

-- What one action returns helps to see what the next one takes.
Leaves-known :
    {A B : Type 0} (P : A → Type 0) (mid rest : List ReadResult) (o : Outcome A) (k : A → M B)
    → Leaves mid o
    → Returns P o
    → ((a : A) (w' : World) → P a → w'.reads ≡ mid → Leaves rest (k a w'))
    → Leaves rest (elim o [
      | done a w' ↦ k a w'
      | exited code w' ↦ exited code w'
      | blocked w' ↦ blocked w'
      | fault w' ↦ fault w'
    ])
Leaves-known P mid rest (done a w') k e p s = s a w' p e
Leaves-known P mid rest (exited code w') k e p s = absurd e
Leaves-known P mid rest (blocked w') k e p s = absurd e
Leaves-known P mid rest (fault w') k e p s = absurd e

-- What the rounds need of the configuration.
abbrev Kept : Config → Config → Type 0
Kept config c = (c.use_beacon ≡ false) × (c.use_bt5 ≡ config.use_bt5)

Kept-count :
    (b : Bool) (config c : Config)
    → c ≡ (if b then count_packed config else config)
    → config.use_beacon ≡ false
    → Kept config c
Kept-count true config c e off = (ap (λ d. d.use_beacon) e ∙ off, ap (λ d. d.use_bt5) e)
Kept-count false config c e off = (ap (λ d. d.use_beacon) e ∙ off, ap (λ d. d.use_bt5) e)

module _ (env : Env) (accepts : Accepts env) (other : Handler → List (List ℕ) → M Bool) where
  Takes-known :
      {A B : Type 0} {m : M A} {f : A → M B} {a b : ℕ} (P : A → Type 0)
      → Takes env a m
      → ((w : World) → Returns P (m w))
      → ((x : A) → P x → Takes env b (f x))
      → Takes env (a + b) (m >>= f)
  Takes-known {m = m} {f} {a} {b} P p known q = record {
    takes = λ w rest answers.
        let (mid, first, second) = Answered-split env a b w.reads rest answers in
        Leaves-known P mid rest (m w) f (p.takes w mid first) (known w)
          λ x w' h e. (q x h).takes w' rest (subst (λ r. Answered env b r rest) (sym e) second);
  }

  Takes-known-first :
      {A B : Type 0} {m : M A} {f : A → M B} {n : ℕ} (P : A → Type 0)
      → Takes env 0 m
      → ((w : World) → Returns P (m w))
      → ((x : A) → P x → Takes env n (f x))
      → Takes env n (m >>= f)
  Takes-known-first {m = m} {f} {n} P p known q =
      subst (λ k. Takes env k (m >>= f)) (let e : 0 + n ≡ n = omega arith in e)
        (Takes-known P p known q)

  counted-Takes :
      (b : Bool) {m : M (Unit {0})} (c d : Config)
      → Takes env 1 m
      → Takes env (if b then 1 else 0) (if b then (when b m >>= λ _. pure c) else pure d)
  counted-Takes true c d p = Takes->> env p (Takes-pure env c)
  counted-Takes false c d p = Takes-pure env d

  module _ {F : Type 0} (odid : Odid F) where
    send_pack_bt5-Takes :
        (pack : List ℕ) (config : Config)
        → ltb env.pack_max_messages (odid.pack_size pack) ≡ false
        → Takes env (if config.use_bt5 then 1 else 0) (send_pack_bt5 env other odid pack config)
    unfolding send_pack_bt5 send_bluetooth_message_pack hci_le_set_extended_advertising_data_pack
    send_pack_bt5-Takes pack config fits =
        counted-Takes config.use_bt5 (count_packed config) config (
          guarded-Takes env accepts (ltb env.pack_max_messages (odid.pack_size pack))
            (λ w. send_cmd env w.device_descriptor env.ogf_le_ctl 0x37 (
              extended_advertising_data_pack_buf env.pack_max_messages config.handle_bt5
                (odid.pack_size pack) pack config.msg_counters.packed))
            fits
            (send_cmd-Takes env accepts env.ogf_le_ctl 0x37 (
              extended_advertising_data_pack_buf env.pack_max_messages config.handle_bt5
                (odid.pack_size pack) pack config.msg_counters.packed)))

    send_pack_beacon-Takes :
        (pack : List ℕ) (config : Config)
        → config.use_beacon ≡ false
        → Takes env 0 (send_pack_beacon env other odid pack config)
    unfolding send_pack_beacon
    send_pack_beacon-Takes pack config off =
        choose-else config.use_beacon
          (send_beacon_message_pack env other (odid.pack_size pack) pack config.msg_counters.packed
            >>= λ _. pure (count_packed config))
          (pure config) (Takes env 0) off (Takes-pure env config)

    send_pack_rounds-Takes :
        (n : ℕ) (pack : List ℕ) (config : Config)
        → ltb env.pack_max_messages (odid.pack_size pack) ≡ false
        → config.use_beacon ≡ false
        → Takes env
            (times n (if config.use_bt5 then 1 else 0))
            (send_pack_rounds env other odid n pack config)
    unfolding send_pack_rounds
    send_pack_rounds-Takes zero pack config fits off = Takes-pure env config
    send_pack_rounds-Takes (suc n) pack config fits off =
        Takes-known-first (Kept config) (send_pack_beacon-Takes pack config off)
          (λ w.
            Returns-mono (Kept config) _ (send_pack_beacon env other odid pack config w)
              (λ c e. Kept-count config.use_beacon config c e off)
              (send_pack_beacon-counters env other odid pack config w))
          λ c kept.
            Takes-known (Kept config)
              (subst (λ b. Takes env (if b then 1 else 0) (send_pack_bt5 env other odid pack c))
                kept.1 (send_pack_bt5-Takes pack c fits))
              (λ w.
                Returns-mono (Kept config) _ (send_pack_bt5 env other odid pack c w)
                  (λ d e. let k = Kept-count c.use_bt5 c d e kept.0 in (k.0, k.1 ∙ kept.1))
                  (send_pack_bt5-counters env other odid pack c w))
              λ d kept'.
                Takes-first env accepts other {m = emit (slept_us 4000000)}
                  (record { takes = λ w rest e. e })
                  λ u.
                    subst
                      (λ b.
                        Takes env (times n (if b then 1 else 0))
                          (send_pack_rounds env other odid n pack d))
                      kept'.1 (send_pack_rounds-Takes n pack d fits kept'.0)

    -- What `encode_message_pack` makes of the nine messages.
    abbrev pub full_pack : UasData F → List ℕ
    full_pack u =
        (odid.encode_message_pack
          (record {
            single_message_size = message_size;
            msg_pack_size = 9;
            messages = pack_messages odid u;
          })
          (replicate (3 + env.pack_max_messages * message_size) 0)).1

    send_packs-Takes :
        (u : UasData F) (config : Config)
        → AllEncode odid u
        → ltb env.pack_max_messages (odid.pack_size (full_pack u)) ≡ false
        → config.use_beacon ≡ false
        → Takes env
            (times 10 (if config.use_bt5 then 1 else 0))
            (send_packs env other odid u config)
    unfolding send_packs
    send_packs-Takes u config encodes fits off = record {
      takes = λ w rest answers.
          subst (Leaves rest)
            (sym (
              >>=-done
                (create_message_pack env other odid u
                  (replicate (3 + env.pack_max_messages * message_size) 0))
                (λ pack. send_pack_rounds env other odid 10 pack config)
                (create_message_pack_lem odid u env other
                  (replicate (3 + env.pack_max_messages * message_size) 0) w encodes)))
            ((send_pack_rounds-Takes 10 (full_pack u) config fits off).takes w rest answers);
    }

    -- Without Wi-Fi beacons `send_packs` returns, having read ten events if Bluetooth 5 is used and
    -- none otherwise, if every encoder succeeds, the encoded pack does not state more messages than
    -- a pack can have, the socket accepts every command, and the reads give so many events that fit
    -- the receive buffer and have from none to ten bytes behind the headers, each behind any number
    -- of interrupted reads.
    pub send_packs-Leaves :
        (u : UasData F) (config : Config) (w : World) (rest : List ReadResult)
        → AllEncode odid u
        → ltb env.pack_max_messages (odid.pack_size (full_pack u)) ≡ false
        → config.use_beacon ≡ false
        → Answered env (times 10 (if config.use_bt5 then 1 else 0)) w.reads rest
        → Leaves rest (send_packs env other odid u config w)
    send_packs-Leaves u config w rest encodes fits off answers =
        (send_packs-Takes u config encodes fits off).takes w rest answers
