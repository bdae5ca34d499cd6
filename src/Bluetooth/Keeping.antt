-- ===== src/Bluetooth/Keeping.antt =====
-- Actions that always return and take nothing from the device.
use mathlib.Core.Path.{subst}
use transmitter_linux.Common.{ℕ, ◌≡◌, refl, Bool, true, false, not, ◌==◌, List, [], ◌∷◌, take}
use transmitter_linux.Machine.{
  ReadResult, World, Outcome, done, exited, blocked, fault, M, ◌>>◌, skip, when, say, Note, feature,
  feature_bytes, unknown_features,
}
use transmitter_linux.Features.{
  print_bt_le_features, say_features, print_bitfield, collect_features, features_le,
}

-- The call returns, with these reads left.
abbrev pub Leaves : {A : Type 0} → List ReadResult → Outcome A → Type 0
Leaves rest (done _ w) = w.reads ≡ rest
Leaves rest (exited code w) = ⊥
Leaves rest (blocked w) = ⊥
Leaves rest (fault w) = ⊥

-- The action always returns, and reads nothing.
pub record Keeps (m : M (Unit {0})) : Type 0 where
  pub leaves : (w : World) → Leaves w.reads (m w)

pub Leaves-continue :
    (rest : List ReadResult) (o : Outcome (Unit {0})) (k : M (Unit {0}))
    → Leaves rest o
    → Keeps k
    → Leaves rest (elim o [
      | done a w' ↦ k w'
      | exited code w' ↦ exited code w'
      | blocked w' ↦ blocked w'
      | fault w' ↦ fault w'
    ])
Leaves-continue rest (done a w') k e s = subst (λ r. Leaves r (k w')) e (s.leaves w')
Leaves-continue rest (exited code w') k e s = e
Leaves-continue rest (blocked w') k e s = e
Leaves-continue rest (fault w') k e s = e

pub Keeps->> : {m k : M (Unit {0})} → Keeps m → Keeps k → Keeps (m >> k)
Keeps->> {m} {k} p q = record { leaves = λ w. Leaves-continue w.reads (m w) k (p.leaves w) q }

pub Keeps-say : (n : Note) → Keeps (say n)
Keeps-say n = record { leaves = λ w. refl }

pub Keeps-skip : Keeps skip
Keeps-skip = record { leaves = λ w. refl }

pub Keeps-when : (b : Bool) {m : M (Unit {0})} → Keeps m → Keeps (when b m)
Keeps-when true p = p
Keeps-when false p = Keeps-skip

say_features-Keeps : (names : List (List ℕ)) → Keeps (say_features names)
unfolding say_features
say_features-Keeps [] = Keeps-skip
say_features-Keeps (s ∷ rest) = Keeps->> (Keeps-say (feature s)) (say_features-Keeps rest)

pub print_bt_le_features-Keeps : (array : List ℕ) → Keeps (print_bt_le_features array)
unfolding print_bt_le_features
print_bt_le_features-Keeps array =
    let bytes = take 8 array in
    let result = print_bitfield (collect_features 0 0 bytes) features_le in
    Keeps->> (Keeps-say (feature_bytes bytes)) (
      Keeps->> (say_features-Keeps result.1)
        (Keeps-when (not (result.0 == 0)) (Keeps-say (unknown_features result.0))))
