-- ===== src/Transmit/Props/Silence.antt =====
-- What the whole of the sending and the end of it leave on the air, over Bluetooth alone.
use mathlib.Core.Bool.{true≢false}
use mathlib.Core.Path.{subst}
use transmitter_linux.Common.{ℕ, ◌+◌, ◌≡◌, refl, sym, Bool, true, false, ◌||◌, ◌&&◌, List, length}
use transmitter_linux.Machine.{
  World, ReadResult, Outcome, done, exited, blocked, fault, M, ◌>>◌, when, emit, exit, undefined,
  Env, exit_success, gps_closed,
}
use transmitter_linux.Utils.{Config, Counters}
use transmitter_linux.Odid.{Odid, UasData, BasicId, Location, Auth, SelfId, System, OperatorId}
use transmitter_linux.Bluetooth.Buffers.{message_size}
use transmitter_linux.Bluetooth.Keeping.{Leaves}
use transmitter_linux.Bluetooth.Takes.{Answered, Answered-split}
use transmitter_linux.Bluetooth.Answers.{Accepts, close_bluetooth-Leaves}
use transmitter_linux.Bluetooth.Api.{close_bluetooth}
use transmitter_linux.Bluetooth.Trace.Acts.{HciCommand, Ends}
use transmitter_linux.Bluetooth.Trace.Init.{stop_commands, close_bluetooth-Sends}
use transmitter_linux.Bluetooth.Controller.{Controller, run, obey}
use transmitter_linux.Bluetooth.Controller.Obeying.{obey-Sent}
use transmitter_linux.Bluetooth.Controller.Views.{apart, some_kind}
use transmitter_linux.Bluetooth.Controller.Payload.{Silent, stop_commands_lem}
use transmitter_linux.Hostapd.Table.{Handler}
use transmitter_linux.Beacon.{send_quit}
use transmitter_linux.Transmit.Send.{send_single_messages, send_packs}
use transmitter_linux.Transmit.Main.{cleanup, any_bluetooth, transmit_once, transmit_without_gps}
use transmitter_linux.Transmit.Props.Returning.{times, message_count, choose-else}
use transmitter_linux.Transmit.Props.OnAir.{OnAirNow, Ran, Airs, Airs-pure, message-Airs}

-- The encoders leave a message of 25 bytes in the buffer of 25 bytes that they are given.
pub record KeepsSize {F : Type 0} (odid : Odid F) : Type 0 where
  pub basic_id :
      (part : BasicId) (encoded : List ℕ)
      → length encoded ≡ message_size
      → length (odid.encode_basic_id part encoded).1 ≡ message_size
  pub location :
      (part : Location F) (encoded : List ℕ)
      → length encoded ≡ message_size
      → length (odid.encode_location part encoded).1 ≡ message_size
  pub auth :
      (part : Auth) (encoded : List ℕ)
      → length encoded ≡ message_size
      → length (odid.encode_auth part encoded).1 ≡ message_size
  pub self_id :
      (part : SelfId) (encoded : List ℕ)
      → length encoded ≡ message_size
      → length (odid.encode_self_id part encoded).1 ≡ message_size
  pub system :
      (part : System F) (encoded : List ℕ)
      → length encoded ≡ message_size
      → length (odid.encode_system part encoded).1 ≡ message_size
  pub operator_id :
      (part : OperatorId) (encoded : List ℕ)
      → length encoded ≡ message_size
      → length (odid.encode_operator_id part encoded).1 ≡ message_size

any_kind : (a b c : Bool) → (a || (b || c)) ≡ true → ((a || b) || c) ≡ true
any_kind true b c e = refl
any_kind false b c e = e

-- The tests of `cleanup`, over Bluetooth alone.
over_bluetooth :
    (any_of beacon gps : Bool) (close quit undef stop finish : M (Unit {0}))
    (Q : M (Unit {0}) → Type 0)
    → any_of ≡ true
    → beacon ≡ false
    → gps ≡ false
    → Q (close >> finish)
    → Q (
        when any_of close
        >> (when beacon quit >> (when (gps && true) undef >> (when gps stop >> finish))))
over_bluetooth false beacon gps close quit undef stop finish Q a b g q = absurd (true≢false (sym a))
over_bluetooth true true gps close quit undef stop finish Q a b g q = absurd (true≢false b)
over_bluetooth true false true close quit undef stop finish Q a b g q = absurd (true≢false g)
over_bluetooth true false false close quit undef stop finish Q a b g q = q

module _ (env : Env) (c : Controller env) (accepts : Accepts env)
    (other : Handler → List (List ℕ) → M Bool) (config : Config)
    (beacon : config.use_beacon ≡ false) (one : apart config ≡ true)
    (some_of : some_kind config ≡ true) (mac : List ℕ) (s : c.State) where
  open c use {State, view}

  -- The configuration with the counters moved on.
  abbrev SameKinds : Config → Type 0
  SameKinds d = (counters : Counters) × (d ≡ record config { msg_counters = counters })

  -- All of the messages leave the chosen kind on the air.
  send_single_messages-Airs :
      {F : Type 0} (odid : Odid F) (u : UasData F)
      → KeepsSize odid
      → Airs env c accepts other config beacon one some_of mac s
          (times 9 (message_count config))
          SameKinds
          (send_single_messages env other odid u config)
  unfolding send_single_messages
  send_single_messages-Airs odid u keeps =
      message-Airs env c accepts other config beacon one some_of mac s _ _ _ _
        (keeps.basic_id _ _ refl)
        λ e0 s0.
          message-Airs env c accepts other config beacon one some_of mac s _ _ _ _
            (keeps.basic_id _ _ s0)
            λ e1 s1.
              message-Airs env c accepts other config beacon one some_of mac s _ _ _ _
                (keeps.location _ _ s1)
                λ e2 s2.
                  message-Airs env c accepts other config beacon one some_of mac s _ _ _ _
                    (keeps.auth _ _ s2)
                    λ e3 s3.
                      message-Airs env c accepts other config beacon one some_of mac s _ _ _ _
                        (keeps.auth _ _ s3)
                        λ e4 s4.
                          message-Airs env c accepts other config beacon one some_of mac s _ _ _ _
                            (keeps.auth _ _ s4)
                            λ e5 s5.
                              message-Airs env c accepts other config beacon one some_of mac s _ _ _
                                _ (keeps.self_id _ _ s5)
                                λ e6 s6.
                                  message-Airs env c accepts other config beacon one some_of mac s _
                                    _ _ _ (keeps.system _ _ s6)
                                    λ e7 s7.
                                      message-Airs env c accepts other config beacon one some_of mac
                                        s _ _ _ _ (keeps.operator_id _ _ s7)
                                        λ e8 s8.
                                          Airs-pure env c accepts other config beacon one some_of
                                            mac s (_, refl)

  -- The process exits with success, with this left to read, and nothing is advertised.
  abbrev pub Quiet : {A : Type 0} → List ReadResult → Outcome A → Type 0
  Quiet rest (done a w) = ⊥
  Quiet rest (exited code w) =
      (code ≡ exit_success) × (w.reads ≡ rest) × Silent (view (obey env c w.out s))
  Quiet rest (blocked w) = ⊥
  Quiet rest (fault w) = ⊥

  closed-Quiet :
      (w : World) (rest : List ReadResult) (cs : List HciCommand) (o : Outcome (Unit {0}))
      → Leaves rest o
      → Ends w cs o
      → Silent (view (run env c cs (obey env c w.out s)))
      → Quiet rest (elim o [
        | done a w' ↦ exit {A = Unit {0}} exit_success w'
        | exited code w' ↦ exited code w'
        | blocked w' ↦ blocked w'
        | fault w' ↦ fault w'
      ])
  closed-Quiet w rest cs (done tt w') l e q =
      (refl, l, subst (λ t. Silent (view t)) (sym (obey-Sent env c w w' cs s e)) q)
  closed-Quiet w rest cs (exited code w') l e q = absurd l
  closed-Quiet w rest cs (blocked w') l e q = absurd l
  closed-Quiet w rest cs (fault w') l e q = absurd l

  cleanup-Quiet :
      (counters : Counters) (w : World) (rest : List ReadResult)
      → config.use_gps ≡ false
      → Answered env 4 w.reads rest
      → OnAirNow env c accepts other config beacon one some_of mac s w
      → Quiet rest
          (cleanup env other false (record config { msg_counters = counters }) exit_success w)
  unfolding cleanup
  cleanup-Quiet counters w rest gps answers on =
      let d = record config { msg_counters = counters } in
      over_bluetooth (any_bluetooth d) config.use_beacon config.use_gps (close_bluetooth env d)
        (send_quit env other) undefined (emit gps_closed) (exit exit_success)
        (λ m. Quiet rest (m w)) (any_kind config.use_btl config.use_bt4 config.use_bt5 some_of)
        beacon gps
        (closed-Quiet w rest (stop_commands env d) (close_bluetooth env d w)
          (close_bluetooth-Leaves env accepts d w rest answers)
          ((close_bluetooth-Sends env d).ends w)
          (stop_commands_lem env c d mac on.0 (obey env c w.out s) on.1))

  transmitted-Quiet :
      (mid rest : List ReadResult) (o : Outcome Config)
      → config.use_gps ≡ false
      → Ran env c accepts other config beacon one some_of mac s SameKinds mid o
      → Answered env 4 mid rest
      → Quiet rest (elim o [
        | done d w' ↦ cleanup env other false d exit_success w'
        | exited code w' ↦ exited code w'
        | blocked w' ↦ blocked w'
        | fault w' ↦ fault w'
      ])
  transmitted-Quiet mid rest (done d w') gps r answers =
      subst (λ k. Quiet rest (cleanup env other false k exit_success w')) (sym r.0.1)
        (cleanup-Quiet r.0.0 w' rest gps (subst (λ l. Answered env 4 l rest) (sym r.1) answers) r.2)
  transmitted-Quiet mid rest (exited code w') gps r answers = absurd r
  transmitted-Quiet mid rest (blocked w') gps r answers = absurd r
  transmitted-Quiet mid rest (fault w') gps r answers = absurd r

  -- Over Bluetooth alone, without packs and GPS, with one kind of extended advertising and legacy
  -- advertising or not, or with legacy advertising alone, and while a controller holds what
  -- `init_bluetooth` leaves: if the encoders leave messages of 25 bytes, the socket accepts every command and the controller
  -- answers each, the part of `main` that sends and cleans up exits with success, having read
  -- nine events for each kind in use and four more, and leaves the controller with nothing
  -- advertised and no set.
  pub transmit_without_gps-Silent :
      {F : Type 0} (odid : Odid F) (u : UasData F) (w : World) (rest : List ReadResult)
      → KeepsSize odid
      → config.use_gps ≡ false
      → config.use_packs ≡ false
      → Answered env (times 9 (message_count config) + 4) w.reads rest
      → OnAirNow env c accepts other config beacon one some_of mac s w
      → Quiet rest (transmit_without_gps env other odid u config w)
  unfolding transmit_without_gps transmit_once
  transmit_without_gps-Silent odid u w rest keeps gps packs answers on =
      let (mid, first, second) =
        Answered-split env (times 9 (message_count config)) 4 w.reads rest answers in
      transmitted-Quiet mid rest (transmit_once env other odid u config w) gps
        (choose-else config.use_packs (send_packs env other odid u config)
          (send_single_messages env other odid u config)
          (λ m. Ran env c accepts other config beacon one some_of mac s SameKinds mid (m w)) packs
          ((send_single_messages-Airs odid u keeps).airs w mid first on))
        second
