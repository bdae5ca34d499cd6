-- ===== src/Transmit/Props/Returning.antt =====
-- That sending over Bluetooth returns when the controller answers.
use mathlib.Core.Bool.{true≢false}
use mathlib.Core.Path.{subst}
use transmitter_linux.Common.{
  ℕ, zero, suc, ◌+◌, ◌≡◌, Bool, true, false, ◌||◌, List, if◌then◌else◌, arith,
}
use transmitter_linux.Machine.{M, ◌>>=◌, ◌>>◌, when, Env, Part}
use transmitter_linux.Utils.{Config}
use transmitter_linux.Odid.{Odid, UasData}
use transmitter_linux.Bluetooth.Buffers.{advertising_data_buf}
use transmitter_linux.Bluetooth.{hci_le_set_advertising_data}
use transmitter_linux.Bluetooth.Api.{send_bluetooth_message}
use transmitter_linux.Bluetooth.Takes.{
  Takes, Takes->>=, Takes->>, Takes-pure, Takes-skip, Takes-when,
}
use transmitter_linux.Bluetooth.Answers.{
  Accepts, send_cmd-Takes, send_bluetooth_message_extended_api-Takes,
}
use transmitter_linux.Hostapd.Table.{Handler}
use transmitter_linux.Beacon.{send_beacon_message}
use transmitter_linux.Transmit.Send.{encode, send_message, send_single_messages}

pub choose-else :
    {A : Type 0} (b : Bool) (m k : M A) (Q : M A → Type 0)
    → b ≡ false
    → Q k
    → Q (if b then m else k)
choose-else true m k Q e q = absurd (true≢false e)
choose-else false m k Q e q = q

-- A number so many times.
abbrev pub times : ℕ → ℕ → ℕ
times zero k = 0
times (suc n) k = k + times n k

-- How many commands one message sends.
abbrev pub message_count : Config → ℕ
message_count c =
    (if c.use_btl then 1 else 0) + ((if c.use_bt4 then 1 else 0) + (if c.use_bt5 then 1 else 0))

module _ (env : Env) (accepts : Accepts env) (other : Handler → List (List ℕ) → M Bool) where
  encode-Takes : (part : Part) (answer : Bool × List ℕ) → Takes env 0 (encode part answer)
  unfolding encode
  encode-Takes part (true, encoded) = Takes-pure env encoded
  encode-Takes part (false, encoded) = record { takes = λ w rest e. e }

  pub Takes-off : (b : Bool) (m : M (Unit {0})) → b ≡ false → Takes env 0 (when b m)
  Takes-off true m e = absurd (true≢false e)
  Takes-off false m e = Takes-skip env

  -- An action that takes nothing, before or after one that does.
  pub Takes-first :
      {A B : Type 0} {m : M A} {f : A → M B} {n : ℕ}
      → Takes env 0 m
      → ((x : A) → Takes env n (f x))
      → Takes env n (m >>= f)
  Takes-first {m = m} {f} {n} p q =
      subst (λ k. Takes env k (m >>= f)) (let e : 0 + n ≡ n = omega arith in e) (Takes->>= env p q)

  pub Takes-last :
      {m k : M (Unit {0})} {n : ℕ} → Takes env n m → Takes env 0 k → Takes env n (m >> k)
  Takes-last {m} {k} {n} p q =
      subst (λ j. Takes env j (m >> k)) (let e : n + 0 ≡ n = omega arith in e) (Takes->> env p q)

  -- A guard that the action tests again.
  again-Takes :
      (b : Bool) {m : M (Unit {0})}
      → Takes env (if b then 1 else 0) m
      → Takes env (if b then 1 else 0) (when b m)
  again-Takes true p = p
  again-Takes false p = Takes-skip env

  either-Takes :
      (b c : Bool) {m : M (Unit {0})}
      → Takes env ((if b then 1 else 0) + (if c then 1 else 0)) m
      → Takes env ((if b then 1 else 0) + (if c then 1 else 0)) (when (b || c) m)
  either-Takes true c p = p
  either-Takes false true p = p
  either-Takes false false p = Takes-skip env

  send_bluetooth_message-Takes :
      (encoded : List ℕ) (counter : ℕ) (config : Config)
      → Takes env
          (if config.use_btl then 1 else 0)
          (send_bluetooth_message env encoded counter config)
  unfolding send_bluetooth_message hci_le_set_advertising_data
  send_bluetooth_message-Takes encoded counter config = Takes-when env config.use_btl (
      send_cmd-Takes env accepts env.ogf_le_ctl env.ocf_le_set_advertising_data
        (advertising_data_buf encoded counter))

  pub send_message-Takes :
      (encoded : List ℕ) (config : Config) (counter : ℕ)
      → config.use_beacon ≡ false
      → Takes env (message_count config) (send_message env other encoded config counter)
  unfolding send_message
  send_message-Takes encoded config counter off =
      Takes->> env
        (again-Takes config.use_btl (send_bluetooth_message-Takes encoded counter config))
        (Takes-last
          (either-Takes config.use_bt4 config.use_bt5
            (send_bluetooth_message_extended_api-Takes env accepts encoded counter config))
          (Takes-last
            (Takes-off config.use_beacon (send_beacon_message env other encoded counter) off)
            (record { takes = λ w rest e. e })))

  -- One message and what follows it.
  message-Takes :
      {A : Type 0} (part : Part) (answer : Bool × List ℕ) (config : Config) (counter : ℕ)
      {k : List ℕ → M A} {n : ℕ}
      → config.use_beacon ≡ false
      → ((e : List ℕ) → Takes env n (k e))
      → Takes env
          (message_count config + n)
          (encode part answer >>= λ e. (send_message env other e config counter >> k e))
  message-Takes part answer config counter off p =
      Takes-first (encode-Takes part answer)
        (λ e. Takes->> env (send_message-Takes e config counter off) (p e))

  pub send_single_messages-Takes :
      {F : Type 0} (odid : Odid F) (u : UasData F) (config : Config)
      → config.use_beacon ≡ false
      → Takes env (times 9 (message_count config)) (send_single_messages env other odid u config)
  unfolding send_single_messages
  send_single_messages-Takes odid u config off = message-Takes _ _ _ _ off λ e0.
      message-Takes _ _ _ _ off λ e1. message-Takes _ _ _ _ off λ e2.
        message-Takes _ _ _ _ off λ e3. message-Takes _ _ _ _ off λ e4.
          message-Takes _ _ _ _ off λ e5.
            message-Takes _ _ _ _ off
              λ e6. message-Takes _ _ _ _ off λ e7. message-Takes _ _ _ _ off λ e8. Takes-pure env _
