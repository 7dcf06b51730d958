-- ===== src/Run.antt =====
-- Statements that change a state, may throw, and may call themselves again: `none` is a recursion
-- cut short. What was written before a throw stays written.
pub mod Ends
use blueboat_cpp.Base.{Option, none, some, Bytes, Result, ok, throws}

abbrev pub Run {ℓ κ} : Type ℓ → Type κ → Type (ℓ ⊔ κ)
Run S A = S → Option (Result A × S)

module _ {ℓ} {S : Type ℓ} where
  abbrev pub done : Run S (Unit {0})
  done s = some (ok tt, s)

  abbrev pub raise {κ} : {A : Type κ} → Bytes → Run S A
  raise e s = some (throws e, s)

  abbrev pub modify : (S → S) → Run S (Unit {0})
  modify f s = some (ok tt, f s)

  abbrev pub lift {κ} : {A : Type κ} → Result A → Run S A
  lift r s = some (r, s)

  -- a call of code that returns or throws
  abbrev pub hook {κ} : {A : Type κ} → (S → Result A × S) → Run S A
  hook f s = some (f s)

  -- a statement that looks at the state first
  abbrev pub with_state {κ} : {A : Type κ} → (S → Run S A) → Run S A
  with_state f s = f s s

  abbrev pub after {κ λ'} :
      {A : Type κ} {B : Type λ'} → Option (Result A × S) → (A → Run S B) → Option (Result B × S)
  after none f = none
  after (some (ok a, s)) f = f a s
  after (some (throws e, s)) f = some (throws e, s)

  infixl 5 ◌>>=◌ ◌>>◌
  abbrev pub ◌>>=◌ {κ λ'} : {A : Type κ} {B : Type λ'} → Run S A → (A → Run S B) → Run S B
  ◌>>=◌ m f s = after (m s) f

  abbrev pub ◌>>◌ {κ} : {B : Type κ} → Run S (Unit {0}) → Run S B → Run S B
  m >> n = m >>= λ _. n

  abbrev pub on_throw {κ} :
      {A : Type κ} → Option (Result A × S) → (Bytes → Run S A) → Option (Result A × S)
  on_throw none f = none
  on_throw (some (ok a, s)) f = some (ok a, s)
  on_throw (some (throws e, s)) f = f e s

  -- try { m } catch (e) { f }
  abbrev pub try_catch {κ} : {A : Type κ} → Run S A → (Bytes → Run S A) → Run S A
  try_catch m f s = on_throw (m s) f
