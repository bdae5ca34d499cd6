-- ===== src/Bluetooth/Takes.antt =====
-- How many events an action takes from the device when it returns.
use mathlib.Core.Path.{subst}
use transmitter_linux.Common.{
  ℕ, zero, suc, ◌+◌, ◌≤◌, ◌≡◌, refl, arith, sym, Bool, true, false, List, ◌∷◌, ◌++◌, length,
  if◌then◌else◌,
}
use transmitter_linux.Machine.{
  ReadResult, bytes_read, World, Outcome, done, exited, blocked, fault, M, ◌>>◌, ◌>>=◌, pure, skip,
  when, Env,
}
use transmitter_linux.Bluetooth.Keeping.{Leaves}
use transmitter_linux.Bluetooth.Events.{Interrupted}

-- The reads begin with this many events that `send_cmd` can take in, each behind any number of
-- interrupted reads, and then `rest` is left.
abbrev pub Answered : Env → ℕ → List ReadResult → List ReadResult → Type 0
Answered env zero reads rest = reads ≡ rest
Answered env (suc n) reads rest =
    (rs : List ReadResult) × (bytes : List ℕ) × (more : List ReadResult) × (reads
      ≡ rs ++ (bytes_read bytes ∷ more))
    × Interrupted rs
    × (length bytes ≤ env.hci_max_event_size)
    × (1 + env.hci_event_hdr_size + env.evt_cmd_complete_size ≤ length bytes)
    × (length bytes ≤ 1 + env.hci_event_hdr_size + env.evt_cmd_complete_size + 10)
    × Answered env n more rest

pub Answered-split :
    (env : Env) (m n : ℕ) (reads rest : List ReadResult)
    → Answered env (m + n) reads rest
    → (mid : List ReadResult) × Answered env m reads mid × Answered env n mid rest
Answered-split env zero n reads rest a =
    (reads, refl, subst (λ k. Answered env k reads rest) (omega arith) a)
Answered-split env (suc m) n reads rest a =
    let (rs, bytes, more, read, retried, fits, low, high, later) =
      subst (λ k. Answered env k reads rest) (let e : suc m + n ≡ suc (m + n) = omega arith in e)
        a in
    let (mid, first, second) = Answered-split env m n more rest later in
    (mid, (rs, bytes, more, read, retried, fits, low, high, first), second)

-- The action returns if it gets so many answers, and takes no more.
pub record Takes {A : Type 0} (env : Env) (n : ℕ) (m : M A) : Type 0 where
  pub takes : (w : World) (rest : List ReadResult) → Answered env n w.reads rest → Leaves rest (m w)

Leaves-then :
    {A B : Type 0} (mid rest : List ReadResult) (o : Outcome A) (k : A → M B)
    → Leaves mid o
    → ((a : A) (w' : World) → w'.reads ≡ mid → Leaves rest (k a w'))
    → Leaves rest (elim o [
      | done a w' ↦ k a w'
      | exited code w' ↦ exited code w'
      | blocked w' ↦ blocked w'
      | fault w' ↦ fault w'
    ])
Leaves-then mid rest (done a w') k e s = s a w' e
Leaves-then mid rest (exited code w') k e s = e
Leaves-then mid rest (blocked w') k e s = e
Leaves-then mid rest (fault w') k e s = e

module _ (env : Env) where
  pub Takes->>= :
      {A B : Type 0} {m : M A} {f : A → M B} {a b : ℕ}
      → Takes env a m
      → ((x : A) → Takes env b (f x))
      → Takes env (a + b) (m >>= f)
  Takes->>= {m = m} {f} {a} {b} p q = record {
    takes = λ w rest answers.
        let (mid, first, second) = Answered-split env a b w.reads rest answers in
        Leaves-then mid rest (m w) f (p.takes w mid first)
          λ x w' e. (q x).takes w' rest (subst (λ r. Answered env b r rest) (sym e) second);
  }

  pub Takes->> :
      {B : Type 0} {m : M (Unit {0})} {k : M B} {a b : ℕ}
      → Takes env a m
      → Takes env b k
      → Takes env (a + b) (m >> k)
  Takes->> p q = Takes->>= p (λ x. q)

  pub Takes-pure : {A : Type 0} (a : A) → Takes env 0 (pure a)
  Takes-pure a = record { takes = λ w rest e. e }

  pub Takes-skip : Takes env 0 skip
  Takes-skip = record { takes = λ w rest e. e }

  pub Takes-when :
      (b : Bool) {m : M (Unit {0})} {n : ℕ}
      → Takes env n m
      → Takes env (if b then n else 0) (when b m)
  Takes-when true p = p
  Takes-when false p = Takes-skip
