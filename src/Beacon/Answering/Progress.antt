-- ===== src/Beacon/Answering/Progress.antt =====
-- What a call brings about while the connection to hostapd stands.
use mathlib.Core.List.{append_assoc, append-nil}
use transmitter_linux.Common.{
  ℕ, ◌≤◌, ◌≡◌, refl, sym, ◌∙◌, ap, Bool, true, false, List, [], ◌∷◌, ◌++◌, codes, if◌then◌else◌,
  arith,
}
use transmitter_linux.Machine.{
  World, Effect, Outcome, done, exited, blocked, fault, M, ◌>>=◌, pure, when, emit, Tick,
  hci_command, hci_closed, ctrl_request, printed, slept_us, shell, gps_streamed, gps_closed,
}
use transmitter_linux.Hostapd.Commands.{same_text}
use transmitter_linux.Hostapd.Waiting.{Answered}

-- The requests to hostapd that are no pings.
unfoldable pub own : List Effect → List (List ℕ)
unfolding same_text
own [] = []
own (ctrl_request cmd ∷ es) =
    let rest = own es in if same_text cmd (codes "PING") then rest else cmd ∷ rest
own (hci_command dd g c p ∷ es) = own es
own (hci_closed dd ∷ es) = own es
own (printed n ∷ es) = own es
own (slept_us n ∷ es) = own es
own (shell cmd ∷ es) = own es
own (gps_streamed flags device ∷ es) = own es
own (gps_closed ∷ es) = own es

keep-append :
    (b : Bool) (cmd : List ℕ) (cmds more : List (List ℕ))
    → (if b then cmds ++ more else cmd ∷ (cmds ++ more)) ≡ (if b then cmds else cmd ∷ cmds) ++ more
keep-append true cmd cmds more = refl
keep-append false cmd cmds more = refl

pub own-append : (es fs : List Effect) → own (es ++ fs) ≡ own es ++ own fs
unfolding own
own-append [] fs = refl
own-append (ctrl_request cmd ∷ es) fs =
    rw (own-append es fs) (keep-append (same_text cmd (codes "PING")) cmd (own es) (own fs))
own-append (hci_command dd g c p ∷ es) fs = own-append es fs
own-append (hci_closed dd ∷ es) fs = own-append es fs
own-append (printed n ∷ es) fs = own-append es fs
own-append (slept_us n ∷ es) fs = own-append es fs
own-append (shell cmd ∷ es) fs = own-append es fs
own-append (gps_streamed flags device ∷ es) fs = own-append es fs
own-append (gps_closed ∷ es) fs = own-append es fs

abbrev pub AnsweredAll : List (List Tick) → Type 0
AnsweredAll [] = Unit
AnsweredAll (ts ∷ rest) = Answered ts × AnsweredAll rest

-- The connection stands, the event loop goes on, and hostapd will answer every ping.
pub record Alive (w : World) : Type 0 where
  pub connected : w.connected ≡ true
  pub going : w.cli_quit ≡ false
  pub answered : AnsweredAll w.schedule

-- Between the two worlds, of which the second is alive, the main thread made these requests, and
-- no post of the semaphore was lost.
pub record Progress (cmds : List (List ℕ)) (w w' : World) : Type 0 where
  pub requested : own w'.out ≡ own w.out ++ cmds
  pub posted : w.semaphore ≤ w'.semaphore
  pub alive : Alive w'

-- The call returns this value, with that progress.
abbrev pub Progressed : {A : Type 0} → List (List ℕ) → A → World → Outcome A → Type 0
Progressed cmds x w (done a w') = (a ≡ x) × Progress cmds w w'
Progressed cmds x w (exited code w') = ⊥
Progressed cmds x w (blocked w') = ⊥
Progressed cmds x w (fault w') = ⊥

-- From every world that is alive the call returns this value, and has made these requests in this
-- order.
pub record Serving {A : Type 0} (cmds : List (List ℕ)) (x : A) (m : M A) : Type 0 where
  pub serves : (w : World) → Alive w → Progressed cmds x w (m w)

Progress-trans :
    (a b : List (List ℕ)) (w v u : World) → Progress a w v → Progress b v u → Progress (a ++ b) w u
Progress-trans a b w v u p q = record {
  requested = q.requested ∙ ap (λ l. l ++ b) p.requested ∙ append_assoc (own w.out) a b;
  posted = omega (arith, p.posted, q.posted);
  alive = q.alive;
}

Progressed-trans :
    {B : Type 0} (a b : List (List ℕ)) (y : B) (w v : World) (o : Outcome B)
    → Progress a w v
    → Progressed b y v o
    → Progressed (a ++ b) y w o
Progressed-trans a b y w v (done z w') first later =
    (later.0, Progress-trans a b w v w' first later.1)
Progressed-trans a b y w v (exited code w') first later = later
Progressed-trans a b y w v (blocked w') first later = later
Progressed-trans a b y w v (fault w') first later = later

Progressed->>= :
    {A B : Type 0} (a b : List (List ℕ)) (x : A) (y : B) (f : A → M B) (w : World) (o : Outcome A)
    → Progressed a x w o
    → ((v : World) → Alive v → Progressed b y v (f x v))
    → Progressed (a ++ b) y w (elim o [
      | done z w' ↦ f z w'
      | exited code w' ↦ exited code w'
      | blocked w' ↦ blocked w'
      | fault w' ↦ fault w'
    ])
Progressed->>= a b x y f w (done z w') first next =
    rw first.0 (Progressed-trans a b y w w' (f x w') first.1 (next w' first.1.alive))
Progressed->>= a b x y f w (exited code w') first next = absurd first
Progressed->>= a b x y f w (blocked w') first next = absurd first
Progressed->>= a b x y f w (fault w') first next = absurd first

pub Serving->>= :
    {A B : Type 0} (a b : List (List ℕ)) (x : A) (y : B) (m : M A) (f : A → M B)
    → Serving a x m
    → Serving b y (f x)
    → Serving (a ++ b) y (m >>= f)
Serving->>= a b x y m f p q = record {
  serves = λ w alive. Progressed->>= a b x y f w (m w) (p.serves w alive) q.serves;
}

pub Serving->> :
    {B : Type 0} (a b : List (List ℕ)) (y : B) (m : M (Unit {0})) (k : M B)
    → Serving a tt m
    → Serving b y k
    → Serving (a ++ b) y (m >>= λ _. k)
Serving->> a b y m k p q = Serving->>= a b tt y m (λ _. k) p q

pub Serving-pure : {A : Type 0} (x : A) → Serving [] x (pure x)
Serving-pure x = record {
  serves = λ w alive. (
    refl,
    record { requested = sym (append-nil (own w.out)); posted = omega arith; alive = alive },
  );
}

-- An effect that is no request.
pub Serving-emit : (e : Effect) → own (e ∷ []) ≡ [] → Serving [] tt (emit e)
Serving-emit e none_own = record {
  serves = λ w alive. (
    refl,
    record {
      requested = own-append w.out (e ∷ []) ∙ ap (λ l. own w.out ++ l) none_own;
      posted = omega arith;
      alive = record {
        connected = alive.connected;
        going = alive.going;
        answered = alive.answered;
      };
    },
  );
}

pub Serving-sleep : (us : ℕ) → Serving [] tt (emit (slept_us us))
unfolding own
Serving-sleep us = Serving-emit (slept_us us) refl

pub Serving-off : (b : Bool) (m : M (Unit {0})) → b ≡ false → Serving [] tt (when b m)
Serving-off true m e = absurd (ground (arith, e))
Serving-off false m e = Serving-pure tt

pub Serving-on :
    (b : Bool) (cmds : List (List ℕ)) (m : M (Unit {0}))
    → b ≡ true
    → Serving cmds tt m
    → Serving cmds tt (when b m)
Serving-on true cmds m e p = p
Serving-on false cmds m e p = absurd (ground (arith, e))

pub Serving-then :
    {A : Type 0} (b : Bool) (cmds : List (List ℕ)) (x : A) (m k : M A)
    → b ≡ true
    → Serving cmds x m
    → Serving cmds x (if b then m else k)
Serving-then true cmds x m k e p = p
Serving-then false cmds x m k e p = absurd (ground (arith, e))

pub Serving-else :
    {A : Type 0} (b : Bool) (cmds : List (List ℕ)) (x : A) (m k : M A)
    → b ≡ false
    → Serving cmds x k
    → Serving cmds x (if b then m else k)
Serving-else true cmds x m k e p = absurd (ground (arith, e))
Serving-else false cmds x m k e p = p

pub Serving-if :
    {A : Type 0} (b : Bool) (c d : List (List ℕ)) (x y : A) (m k : M A)
    → Serving c x m
    → Serving d y k
    → Serving (if b then c else d) (if b then x else y) (if b then m else k)
Serving-if true c d x y m k p q = p
Serving-if false c d x y m k p q = q

-- What is known of the outcome, as an equation.
pub Serving-done :
    {A : Type 0} {cmds : List (List ℕ)} {x : A} {w : World} (o : Outcome A)
    → Progressed cmds x w o
    → (v : World) × (o ≡ done x v) × Progress cmds w v
Serving-done (done a w') p = (w', ap (λ b. done b w') p.0, p.1)
Serving-done (exited code w') p = absurd p
Serving-done (blocked w') p = absurd p
Serving-done (fault w') p = absurd p
