-- ===== src/Transmit/Props/OnAir.antt =====
-- What the whole of the sending leaves on the air, over Bluetooth alone.
use mathlib.Core.Bool.{true≢false}
use mathlib.Core.List.{append-nil}
use mathlib.Core.Path.{subst, ap₂}
use transmitter_linux.Common.{
  ℕ, ◌+◌, ◌≡◌, refl, sym, ap, ◌∙◌, Bool, true, false, ◌||◌, Option, some, List, [], ◌∷◌, ◌++◌,
  length, if◌then◌else◌, arith,
}
use transmitter_linux.Machine.{
  World, ReadResult, Outcome, done, exited, blocked, fault, M, ◌>>=◌, ◌>>◌, pure, when, emit, Env,
  Part, slept_us, printed, encode_failed,
}
use transmitter_linux.Utils.{Config, Counters}
use transmitter_linux.Bluetooth.Buffers.{message_size}
use transmitter_linux.Bluetooth.Keeping.{Leaves}
use transmitter_linux.Bluetooth.Takes.{Answered, Answered-split}
use transmitter_linux.Bluetooth.Answers.{Accepts}
use transmitter_linux.Bluetooth.Trace.Acts.{
  HciCommand, commands-append, Ends, Sends, Sends->>, Sends-when, Sends-skip,
}
use transmitter_linux.Bluetooth.Trace.Init.{send_bluetooth_message_extended_api-Sends}
use transmitter_linux.Bluetooth.Trace.Sending.{send_bluetooth_message-Sends}
use transmitter_linux.Bluetooth.Controller.{Controller, run, obey}
use transmitter_linux.Bluetooth.Controller.Obeying.{obey-Sent}
use transmitter_linux.Bluetooth.Controller.Views.{advertised, apart, some_kind}
use transmitter_linux.Bluetooth.Controller.Payload.{service_data, data_commands, data_commands_lem}
use transmitter_linux.Hostapd.Table.{Handler}
use transmitter_linux.Beacon.{send_beacon_message}
use transmitter_linux.Transmit.Send.{encode, send_message}
use transmitter_linux.Transmit.Props.Returning.{message_count, send_message-Takes}

again :
    (b : Bool) (xs : List HciCommand)
    → (if b then (if b then xs else []) else []) ≡ (if b then xs else [])
again true xs = refl
again false xs = refl

either :
    (c d : Bool) (ys zs : List HciCommand)
    → (if c || d then (if c then ys else []) ++ (if d then zs else []) else []) ++ []
      ≡ (if c then ys else []) ++ (if d then zs else [])
either true d ys zs = append-nil (ys ++ (if d then zs else []))
either false true ys zs = append-nil zs
either false false ys zs = refl

-- The commands of `send_message`, which tests the kinds twice.
tested_twice :
    (b c d : Bool) (xs ys zs : List HciCommand)
    → (if b then (if b then xs else []) else [])
        ++ ((if c || d then (if c then ys else []) ++ (if d then zs else []) else []) ++ [])
      ≡ (if b then xs else []) ++ ((if c then ys else []) ++ (if d then zs else []))
tested_twice b c d xs ys zs = ap₂ (λ l m. l ++ m) (again b xs) (either c d ys zs)

module _ (env : Env) (other : Handler → List (List ℕ) → M Bool) (config : Config)
    (beacon : config.use_beacon ≡ false) where
  Sends-off : (b : Bool) (m : M (Unit {0})) → b ≡ false → Sends (when b m) []
  Sends-off true m e = absurd (true≢false e)
  Sends-off false m e = Sends-skip

  Sends-slept : (us : ℕ) → Sends (emit (slept_us us)) []
  Sends-slept us = record {
    ends = λ w. record { log = commands-append w.out (slept_us us ∷ []); device = refl };
  }

  send_message-Sends :
      (c : Controller env) (encoded : List ℕ) (counter : ℕ)
      → Sends
          (send_message env other encoded config counter)
          (data_commands env c encoded counter config)
  unfolding send_message
  send_message-Sends c encoded counter =
      subst (Sends (send_message env other encoded config counter))
        (tested_twice config.use_btl config.use_bt4 config.use_bt5 _ _ _)
        (Sends->>
          (Sends-when config.use_btl (send_bluetooth_message-Sends env encoded counter config))
          (Sends->>
            (Sends-when (config.use_bt4 || config.use_bt5)
              (send_bluetooth_message_extended_api-Sends env encoded counter config))
            (Sends->>
              (Sends-off config.use_beacon (send_beacon_message env other encoded counter) beacon)
              (Sends-slept 100000))))

module _ (env : Env) (c : Controller env) (accepts : Accepts env)
    (other : Handler → List (List ℕ) → M Bool) (config : Config)
    (beacon : config.use_beacon ≡ false) (one : apart config ≡ true)
    (some_of : some_kind config ≡ true) (mac : List ℕ) (s : c.State) where
  open c use {State, view}

  -- The controller holds what `init_bluetooth` leaves, with any payload.
  abbrev pub OnAirNow : World → Type 0
  OnAirNow w =
      (payload : Option (List ℕ)) × (view (obey env c w.out s)
        ≡ advertised c.takes_surplus config mac payload)

  -- The call returns with this left to read, and the kind is still on the air.
  abbrev pub Ran : {A : Type 0} → (A → Type 0) → List ReadResult → Outcome A → Type 0
  Ran P rest (done a w) = P a × (w.reads ≡ rest) × OnAirNow w
  Ran P rest (exited code w) = ⊥
  Ran P rest (blocked w) = ⊥
  Ran P rest (fault w) = ⊥

  pub record Airs {A : Type 0} (n : ℕ) (P : A → Type 0) (m : M A) : Type 0 where
    pub airs :
        (w : World) (rest : List ReadResult)
        → Answered env n w.reads rest
        → OnAirNow w
        → Ran P rest (m w)

  Ran-then :
      {A B : Type 0} (P : A → Type 0) (Q : B → Type 0) (mid rest : List ReadResult) (o : Outcome A)
      (k : A → M B)
      → Ran P mid o
      → ((a : A) (w' : World) → P a → w'.reads ≡ mid → OnAirNow w' → Ran Q rest (k a w'))
      → Ran Q rest (elim o [
        | done a w' ↦ k a w'
        | exited code w' ↦ exited code w'
        | blocked w' ↦ blocked w'
        | fault w' ↦ fault w'
      ])
  Ran-then P Q mid rest (done a w') k r t = t a w' r.0 r.1 r.2
  Ran-then P Q mid rest (exited code w') k r t = absurd r
  Ran-then P Q mid rest (blocked w') k r t = absurd r
  Ran-then P Q mid rest (fault w') k r t = absurd r

  pub Airs->>= :
      {A B : Type 0} {P : A → Type 0} {Q : B → Type 0} {m : M A} {f : A → M B} {a b : ℕ}
      → Airs a P m
      → ((x : A) → P x → Airs b Q (f x))
      → Airs (a + b) Q (m >>= f)
  Airs->>= {P = P} {Q} {m} {f} {a} {b} p q = record {
    airs = λ w rest answers on.
        let (mid, first, second) = Answered-split env a b w.reads rest answers in
        Ran-then P Q mid rest (m w) f (p.airs w mid first on) λ x w' px e on'.
          (q x px).airs w' rest (subst (λ r. Answered env b r rest) (sym e) second) on';
  }

  sent_Ran :
      (w : World) (rest : List ReadResult) (cs : List HciCommand) (o : Outcome (Unit {0}))
      (payload : Option (List ℕ))
      → Leaves rest o
      → Ends w cs o
      → view (run env c cs (obey env c w.out s)) ≡ advertised c.takes_surplus config mac payload
      → Ran (λ u. Unit) rest o
  sent_Ran w rest cs (done tt w') payload l e v =
      (tt, l, (payload, ap view (obey-Sent env c w w' cs s e) ∙ v))
  sent_Ran w rest cs (exited code w') payload l e v = absurd l
  sent_Ran w rest cs (blocked w') payload l e v = absurd l
  sent_Ran w rest cs (fault w') payload l e v = absurd l

  -- One message leaves the kind on the air, with the message as its payload.
  pub send_message-Airs :
      (encoded : List ℕ) (counters : Counters) (counter : ℕ)
      → length encoded ≡ message_size
      → Airs
          (message_count config)
          (λ u. Unit)
          (send_message env other encoded (record config { msg_counters = counters }) counter)
  send_message-Airs encoded counters counter size =
      let d = record config { msg_counters = counters } in
      record {
        airs = λ w rest answers on.
            sent_Ran w rest (data_commands env c encoded counter d)
              (send_message env other encoded d counter w) (some (service_data counter encoded))
              ((send_message-Takes env accepts other encoded d counter beacon).takes w rest answers)
              ((send_message-Sends env other d beacon c encoded counter).ends w)
              (data_commands_lem env c encoded counter size d mac on.0 (obey env c w.out s) one
                some_of on.1);
      }

  -- An action that reads nothing, and what follows it.
  Airs-first :
      {A B : Type 0} {P : A → Type 0} {Q : B → Type 0} {m : M A} {f : A → M B} {n : ℕ}
      → Airs 0 P m
      → ((x : A) → P x → Airs n Q (f x))
      → Airs n Q (m >>= f)
  Airs-first {Q = Q} {m} {f} {n} p q =
      subst (λ k. Airs k Q (m >>= f)) (let e : 0 + n ≡ n = omega arith in e) (Airs->>= p q)

  pub Airs-pure : {A : Type 0} {P : A → Type 0} {x : A} → P x → Airs 0 P (pure x)
  Airs-pure p = record { airs = λ w rest read on. (p, read, on) }

  encode-Airs :
      (part : Part) (answer : Bool × List ℕ)
      → length answer.1 ≡ message_size
      → Airs 0 (λ e. length e ≡ message_size) (encode part answer)
  unfolding encode
  encode-Airs part (true, encoded) size = Airs-pure size
  encode-Airs part (false, encoded) size = record {
    airs = λ w rest read on.
        let line = printed (encode_failed part) ∷ [] in
        let w' = record w { out = w.out ++ line } in
        let same =
          obey-Sent env c w w' [] s (record { log = commands-append w.out line; device = refl }) in
        (size, read, (on.0, ap view same ∙ on.1));
  }

  -- A part that is encoded and sent, and what follows it.
  pub message-Airs :
      {A : Type 0} {P : A → Type 0} (part : Part) (answer : Bool × List ℕ) (counters : Counters)
      (counter : ℕ) {k : List ℕ → M A} {n : ℕ}
      → length answer.1 ≡ message_size
      → ((e : List ℕ) → length e ≡ message_size → Airs n P (k e))
      → Airs (message_count config + n) P (
          encode part answer >>= λ e.
          (send_message env other e (record config { msg_counters = counters }) counter >> k e))
  message-Airs part answer counters counter size p =
      Airs-first (encode-Airs part answer size)
        λ e fits. Airs->>= (send_message-Airs e counters counter fits) λ u sent. p e fits
