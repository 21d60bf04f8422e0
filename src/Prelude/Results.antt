-- ===== src/Prelude/Results.antt =====
-- A result that is a value or the exception that was raised.
use mathlib.Core.Path.{◌≡◌}

pub data Result {ℓ κ} (E : Type κ) (A : Type ℓ) : Type (ℓ ⊔ κ) where
  ok : A → Result E A
  err : E → Result E A

module _ {ℓ κ} {E : Type κ} {A : Type ℓ} where
  pub ok_injective : (x y : A) → ◌≡◌ {A = Result E A} (ok x) (ok y) → x ≡ y
  ok_injective x y e = cc

  pub ok-ne-err : (x : A) (e : E) → ◌≡◌ {A = Result E A} (ok x) (err e) → ⊥
  ok-ne-err x e same = cc
