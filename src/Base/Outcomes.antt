-- ===== src/Base/Outcomes.antt =====
-- Partial correctness: what holds of the value of a call that does not end in a fault.
use mathlib.Core.Path.{◌≡◌, subst}
use mathlib.Core.Bool.{Bool, true, false}
use ktable_fs.Base.Faults.{Result, ok, fault, ◌>>=◌}
use ktable_fs.Base.Tests.{if◌then◌else◌}

module _ {ℓ κ} {A : Type ℓ} (P : A → Type κ) where
  abbrev pub Ensures : Result A → Type κ
  Ensures (fault why) = Unit
  Ensures (ok a) = P a

  pub Ensures-ok : (r : Result A) {a : A} → r ≡ ok a → Ensures r → P a
  Ensures-ok r e h = subst Ensures e h

  pub Ensures-if :
      (b : Bool) (r s : Result A) → Ensures r → Ensures s → Ensures (if b then r else s)
  Ensures-if true r s h k = h
  Ensures-if false r s h k = k

module _ {ℓ κ μ ν} {A : Type ℓ} {B : Type μ} (Q : A → Type κ) (P : B → Type ν) where
  pub Ensures-bind :
      (m : Result A) (f : A → Result B)
      → Ensures Q m
      → ((a : A) → Q a → Ensures P (f a))
      → Ensures P (m >>= f)
  Ensures-bind (fault why) f h k = tt
  Ensures-bind (ok a) f h k = k a h

module _ {ℓ κ ν} {A : Type ℓ} (P : A → Type κ) (Q : A → Type ν) where
  pub Ensures-map : (r : Result A) → ((a : A) → P a → Q a) → Ensures P r → Ensures Q r
  Ensures-map (fault why) f h = tt
  Ensures-map (ok a) f h = f a h
