-- ===== src/Run/Ends.antt =====
-- Statements that always return or throw, one after another.
use blueboat_cpp.Base.{refl, ◌≢◌, Option, none, some, Result, ok, throws}
use blueboat_cpp.Run.{Run, ◌>>=◌, done, after}

pub record Ends {ℓ κ} {S : Type ℓ} {A : Type κ} (m : Run S A) : Type (ℓ ⊔ κ) where
  pub at : (s : S) → m s ≢ none

module _ {ℓ} {S : Type ℓ} where
  pub Ends-done : Ends (done {S = S})
  Ends-done = record { at = λ s p. cc }

module _ {ℓ κ λ'} {S : Type ℓ} {A : Type κ} {B : Type λ'} where
  after-Ends :
      (o : Option (Result A × S)) (f : A → Run S B)
      → o ≢ none
      → ((a : A) → Ends (f a))
      → after o f ≢ none
  after-Ends none f h k = λ p. h refl
  after-Ends (some (ok a, s)) f h k = (k a).at s
  after-Ends (some (throws e, s)) f h k = λ p. cc

  pub Ends-bind : (m : Run S A) (f : A → Run S B) → Ends m → ((a : A) → Ends (f a)) → Ends (m >>= f)
  Ends-bind m f h k = record { at = λ s. after-Ends (m s) f (h.at s) k }
