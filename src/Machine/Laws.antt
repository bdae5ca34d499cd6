-- ===== src/Machine/Laws.antt =====
-- Postconditions of the functions that act on the machine.
use transmitter_linux.Common.{◌≡◌, ap}
use transmitter_linux.Machine.Defs.{World, Outcome, done, exited, blocked, fault, M, ◌>>=◌}

-- What a call returns, if it returns, is as `P` says.
abbrev pub Returns : {A : Type 0} → (A → Type 0) → Outcome A → Type 0
Returns P (done a w) = P a
Returns P (exited code w) = Unit
Returns P (blocked w) = Unit
Returns P (fault w) = Unit

pub Returns->>= :
    {A B : Type 0} (P : B → Type 0) (m : M A) (f : A → M B)
    → ((a : A) (w : World) → Returns P (f a w))
    → (w : World) → Returns P ((m >>= f) w)
Returns->>= P m f h w = go (m w)
  where
    go :
        (o : Outcome _)
        → Returns P (elim o [
          | done a w' ↦ f a w'
          | exited code w' ↦ exited code w'
          | blocked w' ↦ blocked w'
          | fault w' ↦ fault w'
        ])
    go (done a w') = h a w'
    go (exited code w') = tt
    go (blocked w') = tt
    go (fault w') = tt

-- A call that returns goes on with what follows.
pub >>=-done :
    {A B : Type 0} (m : M A) (f : A → M B) {a : A} {w w' : World}
    → m w ≡ done a w'
    → (m >>= f) w ≡ f a w'
>>=-done {A} {B} m f e = ap continue e
  where
    continue : Outcome A → Outcome B
    continue o = elim o [
      | done b v ↦ f b v
      | exited code v ↦ exited code v
      | blocked v ↦ blocked v
      | fault v ↦ fault v
    ]

-- Nothing follows a call that stays blocked.
pub >>=-blocked :
    {A B : Type 0} (m : M A) (f : A → M B) {w w' : World}
    → m w ≡ blocked w'
    → (m >>= f) w ≡ blocked w'
>>=-blocked {A} {B} m f e = ap continue e
  where
    continue : Outcome A → Outcome B
    continue o = elim o [
      | done b v ↦ f b v
      | exited code v ↦ exited code v
      | blocked v ↦ blocked v
      | fault v ↦ fault v
    ]

-- The rule for a bind whose first part has a postcondition of its own.
pub Returns-bind :
    {A B : Type 0} (P : B → Type 0) (Q : A → Type 0) (m : M A) (f : A → M B) (w : World)
    → Returns Q (m w)
    → ((a : A) (w' : World) → Q a → Returns P (f a w'))
    → Returns P ((m >>= f) w)
Returns-bind {A} P Q m f w q h = go (m w) q
  where
    go :
        (o : Outcome A)
        → Returns Q o
        → Returns P (elim o [
          | done a w' ↦ f a w'
          | exited code w' ↦ exited code w'
          | blocked w' ↦ blocked w'
          | fault w' ↦ fault w'
        ])
    go (done a w') r = h a w' r
    go (exited code w') r = tt
    go (blocked w') r = tt
    go (fault w') r = tt

pub Returns-mono :
    {A : Type 0} (P Q : A → Type 0) (o : Outcome A)
    → ((a : A) → Q a → P a)
    → Returns Q o
    → Returns P o
Returns-mono P Q (done a w') h r = h a r
Returns-mono P Q (exited code w') h r = tt
Returns-mono P Q (blocked w') h r = tt
Returns-mono P Q (fault w') h r = tt
