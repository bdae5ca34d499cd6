-- ===== src/Transmit/Props/Exiting.antt =====
-- That the program exits when the controller answers.
use mathlib.Core.Path.{subst}
use transmitter_linux.Common.{
  ℕ, ◌+◌, ◌≡◌, refl, sym, ◌∙◌, ap, Bool, true, false, ◌&&◌, List, if◌then◌else◌, arith,
}
use transmitter_linux.Machine.{
  World, Returns, ReadResult, Outcome, done, exited, blocked, fault, M, ◌>>◌, when, emit,
  exit_success, undefined, Env, gps_closed,
}
use transmitter_linux.Utils.{Config}
use transmitter_linux.Odid.{Odid, UasData}
use transmitter_linux.Bluetooth.Keeping.{Leaves}
use transmitter_linux.Bluetooth.Takes.{Answered, Answered-split, Takes, Takes-when}
use transmitter_linux.Bluetooth.Answers.{Accepts, close_bluetooth-Takes}
use transmitter_linux.Hostapd.Table.{Handler}
use transmitter_linux.Beacon.{send_quit}
use transmitter_linux.Transmit.Send.{send_single_messages, send_packs}
use transmitter_linux.Transmit.Props.Counting.{after_singles, send_single_messages-counters}
use transmitter_linux.Transmit.Main.{cleanup, any_bluetooth, transmit_once, transmit_without_gps}
use transmitter_linux.Transmit.Props.Returning.{
  times, message_count, choose-else, Takes-off, send_single_messages-Takes,
}

-- The process exits with this code, with these reads left.
abbrev pub Exits : {A : Type 0} → ℕ → List ReadResult → Outcome A → Type 0
Exits code rest (done a w) = ⊥
Exits code rest (exited c w) = (c ≡ code) × (w.reads ≡ rest)
Exits code rest (blocked w) = ⊥
Exits code rest (fault w) = ⊥

Exits-then :
    {A B : Type 0} (P : A → Type 0) (code : ℕ) (mid rest : List ReadResult) (o : Outcome A)
    (k : A → M B)
    → Leaves mid o
    → Returns P o
    → ((a : A) (w' : World) → P a → w'.reads ≡ mid → Exits code rest (k a w'))
    → Exits code rest (elim o [
      | done a w' ↦ k a w'
      | exited code w' ↦ exited code w'
      | blocked w' ↦ blocked w'
      | fault w' ↦ fault w'
    ])
Exits-then P code mid rest (done a w') k e p s = s a w' p e
Exits-then P code mid rest (exited c w') k e p s = absurd e
Exits-then P code mid rest (blocked w') k e p s = absurd e
Exits-then P code mid rest (fault w') k e p s = absurd e

Returns-any : {A : Type 0} (o : Outcome A) → Returns (λ a. Unit) o
Returns-any (done a w) = tt
Returns-any (exited c w) = tt
Returns-any (blocked w) = tt
Returns-any (fault w) = tt

-- The configuration after the nine messages.
abbrev Counted : Config → Config → Type 0
Counted config c = c ≡ record config { msg_counters = after_singles config.msg_counters }

stop_count :
    (c config : Config)
    → Counted config c
    → (if any_bluetooth c then 4 else 0) + 0 ≡ (if any_bluetooth config then 4 else 0)
stop_count c config e = ap (λ d. (if any_bluetooth d then 4 else 0) + 0) e ∙ omega arith

-- The action takes so many answers, and the process then exits with this code.
record Quits {A : Type 0} (env : Env) (n code : ℕ) (m : M A) : Type 0 where
  quits : (w : World) (rest : List ReadResult) → Answered env n w.reads rest → Exits code rest (m w)

module _ (env : Env) (accepts : Accepts env) (other : Handler → List (List ℕ) → M Bool) where
  Quits->> :
      {B : Type 0} {m : M (Unit {0})} {k : M B} {a b code : ℕ}
      → Takes env a m
      → Quits env b code k
      → Quits env (a + b) code (m >> k)
  Quits->> {m = m} {k} {a} {b} {code} p q = record {
    quits = λ w rest answers.
        let (mid, first, second) = Answered-split env a b w.reads rest answers in
        Exits-then (λ x. Unit) code mid rest (m w) (λ x. k) (p.takes w mid first)
          (Returns-any (m w))
          (λ x w' u e. q.quits w' rest (subst (λ r. Answered env b r rest) (sym e) second));
  }

  Quits-off :
      {B : Type 0} {b : Bool} (m : M (Unit {0})) {k : M B} {n code : ℕ}
      → b ≡ false
      → Quits env n code k
      → Quits env n code (when b m >> k)
  Quits-off {b = b} m {k} {n} {code} e q =
      subst (λ j. Quits env j code (when b m >> k)) (let z : 0 + n ≡ n = omega arith in z)
        (Quits->> (Takes-off env accepts other b m e) q)

  cleanup-Quits :
      (config : Config) (code : ℕ)
      → config.use_beacon ≡ false
      → config.use_gps ≡ false
      → Quits env
          ((if any_bluetooth config then 4 else 0) + 0)
          code
          (cleanup env other false config code)
  unfolding cleanup
  cleanup-Quits config code beacon gps =
      Quits->> (Takes-when env (any_bluetooth config) (close_bluetooth-Takes env accepts config)) (
        Quits-off (send_quit env other) beacon (
          Quits-off undefined (ap (λ b. b && true) gps)
            (Quits-off (emit gps_closed) gps (record { quits = λ w rest e. (refl, e) }))))

  -- Without Wi-Fi beacons, packs and GPS, the part of `main` that sends and cleans up exits with
  -- code 0, having read nine times as many events as kinds of Bluetooth are used, and four more if
  -- one is, if the socket accepts every command and the reads give so many events that fit the
  -- receive buffer and have from none to ten bytes behind the headers, each behind any number of
  -- interrupted reads.
  pub transmit_without_gps-Exits :
      {F : Type 0} (odid : Odid F) (u : UasData F) (config : Config) (w : World)
      (rest : List ReadResult)
      → config.use_beacon ≡ false
      → config.use_gps ≡ false
      → config.use_packs ≡ false
      → Answered env
          (times 9 (message_count config) + (if any_bluetooth config then 4 else 0))
          w.reads
          rest
      → Exits exit_success rest (transmit_without_gps env other odid u config w)
  unfolding transmit_without_gps transmit_once
  transmit_without_gps-Exits odid u config w rest beacon gps packs answers =
      let (mid, first, second) =
        Answered-split env (times 9 (message_count config)) (if any_bluetooth config then 4 else 0)
          w.reads rest answers in
      Exits-then (Counted config) exit_success mid rest (transmit_once env other odid u config w)
        (λ c. cleanup env other false c exit_success)
        (choose-else config.use_packs (send_packs env other odid u config)
          (send_single_messages env other odid u config) (λ m. Leaves mid (m w)) packs
          ((send_single_messages-Takes env accepts other odid u config beacon).takes w mid first))
        (choose-else config.use_packs (send_packs env other odid u config)
          (send_single_messages env other odid u config) (λ m. Returns (Counted config) (m w)) packs
          (send_single_messages-counters env other odid u config w))
        (λ c w' e read.
          (cleanup-Quits c exit_success (ap (λ d. d.use_beacon) e ∙ beacon)
              (ap (λ d. d.use_gps) e ∙ gps)).quits
            w' rest
            (subst (λ r. Answered env ((if any_bluetooth c then 4 else 0) + 0) r rest) (sym read)
              (subst (λ n. Answered env n mid rest) (sym (stop_count c config e)) second)))
