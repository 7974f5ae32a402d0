-- ===== src/Opaque/Returns.antt =====
-- What the steps of a Go function have done when it returns without an error.
use plissken.Base.{◌≡◌, refl, ap, Option, none, some, Bool, true, false}
use plissken.Opaque.Go.{Go, fail, provided, continue}

module _ {W A : Type 0} where
  none-Returns : {C : Type 0} (w v : W) (a : A) → fail w ≡ (some a, v) → C
  none-Returns w v a e = let h : none ≡ some a = ap (λ z. z.0) e in cc

  pub provided-Returns :
      (c : Bool) (m : Go W A) (w : W) (a : A) (v : W)
      → provided c m w ≡ (some a, v)
      → (c ≡ true) × (m w ≡ (some a, v))
  provided-Returns true m w a v e = (refl, e)
  provided-Returns false m w a v e = none-Returns w v a e

module _ {W A B : Type 0} where
  pub continue-Returns :
      (r : Option A) (f : A → Go W B) (u : W) (b : B) (v : W)
      → continue r f u ≡ (some b, v)
      → (a : A) × (r ≡ some a) × (f a u ≡ (some b, v))
  continue-Returns (some a) f u b v e = (a, refl, e)
  continue-Returns none f u b v e = none-Returns u v b e
